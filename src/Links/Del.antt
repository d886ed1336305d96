-- ===== src/Links/Del.antt =====
-- Removal from a ring.
use oslabcode.Prelude.{
  ℕ, ◌<◌, ◌≡◌, inl, inr, List, [], ◌∷◌, ◌++◌, append_assoc, arith, count, count-append,
}
use oslabcode.Links.{Links, list_del, list_del_init, list_init}
use oslabcode.Links.Add.{snoc-cases}
use oslabcode.Links.Ring.{IsRing, list_init-IsRing, Seg-frame, rotate}

-- The entry behind the head is unlinked, and the others stay in order.
pub list_del-cons :
    (s : Links) (h e : ℕ) (xs : List ℕ) → IsRing s h (e ∷ xs) → IsRing (list_del s e) h xs
unfolding list_del
list_del-cons s h e [] r = record {
  chain = (ground (arith, r.chain), ground (arith, r.chain));
  distinct = λ a. ground (arith, r.distinct a);
}
list_del-cons s h e (x ∷ xs) r = record {
  chain = (
    ground (arith, r.chain),
    ground (arith, r.chain),
    Seg-frame s (list_del s e) x h xs (λ n i. ground (arith, r.distinct n, r.distinct h, r.chain))
        (λ n i. ground (arith, r.distinct n, r.distinct x, r.chain)) r.chain.2.2,
  );
  distinct = λ a. ground (arith, r.distinct a);
}

list_del-snoc :
    (s : Links) (h z e : ℕ) (zs ys : List ℕ)
    → IsRing s h ((zs ++ z ∷ []) ++ e ∷ ys)
    → IsRing (list_del s e) h ((zs ++ z ∷ []) ++ ys)
list_del-snoc s h z e zs ys r =
    let turned = rotate s h z zs (e ∷ ys) (rw append_assoc at r) in
    rw append_assoc (rotate (list_del s e) z h ys zs (list_del-cons s z e (ys ++ h ∷ zs) turned))

-- An entry is unlinked wherever it stands, and the others stay in order.
pub list_del-append :
    (s : Links) (h e : ℕ) (xs ys : List ℕ)
    → IsRing s h (xs ++ e ∷ ys)
    → IsRing (list_del s e) h (xs ++ ys)
list_del-append s h e xs ys r = elim (snoc-cases xs) [
  | inl nil ↦ rw nil (list_del-cons s h e ys (rw nil at r))
  | inr (zs, z, snoc) ↦ rw snoc (list_del-snoc s h z e zs ys (rw snoc at r))
]

-- A ring survives writes to other entries.
pub IsRing-frame :
    (s t : Links) (h : ℕ) (xs : List ℕ)
    → ((n : ℕ) → 0 < count n (h ∷ xs) → (t.next n ≡ s.next n) × (t.prev n ≡ s.prev n))
    → IsRing s h xs
    → IsRing t h xs
IsRing-frame s t h xs f r = record {
  chain = Seg-frame s t h h xs (λ n i. (f n i).0) (λ n i. (f n i).1) r.chain;
  distinct = r.distinct;
}

list_init_frame :
    (s : Links) (h e : ℕ) (xs : List ℕ)
    → count e (h ∷ xs) ≡ 0
    → IsRing s h xs
    → IsRing (list_init s e) h xs
unfolding list_init
list_init_frame s h e xs out r =
    IsRing-frame s (list_init s e) h xs (λ n i. (ground (arith, out), ground (arith, out))) r

-- `list_del_init` of an entry of a ring leaves the ring of the others, and the entry as an empty
-- ring of its own.
pub list_del_init-append :
    (s : Links) (h e : ℕ) (xs ys : List ℕ)
    → IsRing s h (xs ++ e ∷ ys)
    → IsRing (list_del_init s e) h (xs ++ ys) × IsRing (list_del_init s e) e []
unfolding list_del_init
list_del_init-append s h e xs ys r = (
  list_init_frame (list_del s e) h e (xs ++ ys)
      (grind (arith, r.distinct e, count-append e xs ys, count-append e xs (e ∷ ys)))
      (list_del-append s h e xs ys r),
  list_init-IsRing (list_del s e) e,
)
