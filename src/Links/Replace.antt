-- ===== src/Links/Replace.antt =====
-- One entry of a ring gives its place to another.
use oslabcode.Prelude.{ℕ, ◌≡◌, inl, inr, List, [], ◌∷◌, ◌++◌, append_assoc, count}
use oslabcode.Links.{Links, list_add_after, list_add, list_del}
use oslabcode.Links.Ring.{IsRing, Seg-split}
use oslabcode.Links.Add.{snoc-cases, list_add_after-cons, list_add_after-append}
use oslabcode.Links.Del.{list_del-append}

replace-snoc :
    (s : Links) (h z e new : ℕ) (zs ys : List ℕ)
    → IsRing s h ((zs ++ z ∷ []) ++ e ∷ ys)
    → count new (h ∷ (zs ++ z ∷ []) ++ ys) ≡ 0
    → IsRing (list_add_after (list_del s e) (s.prev e) new) h ((zs ++ z ∷ []) ++ new ∷ ys)
replace-snoc s h z e new zs ys r out =
    let back : s.prev e ≡ z = (Seg-split s h z h zs (e ∷ ys) (rw append_assoc at r.chain)).1.1 in
    rw (back, append_assoc)
      (list_add_after-append (list_del s e) h z new zs ys
        (rw append_assoc at (list_del-append s h e (zs ++ z ∷ []) ys r)) (rw append_assoc at out))

-- `list_del` of an entry of a ring, then `list_add` of a new one behind what was its predecessor,
-- puts the new one in its place.
pub list_del-list_add :
    (s : Links) (h e new : ℕ) (xs ys : List ℕ)
    → IsRing s h (xs ++ e ∷ ys)
    → count new (h ∷ xs ++ ys) ≡ 0
    → IsRing (list_add (list_del s e) (s.prev e) new) h (xs ++ new ∷ ys)
unfolding list_add
list_del-list_add s h e new xs ys r out = elim (snoc-cases xs) [
  | inl nil ↦
      let r' = (rw nil at r) in
      rw (nil, r'.chain.1)
        (list_add_after-cons (list_del s e) h new ys (list_del-append s h e [] ys r')
          (rw nil at out))
  | inr (zs, z, snoc) ↦ rw snoc (replace-snoc s h z e new zs ys (rw snoc at r) (rw snoc at out))
]
