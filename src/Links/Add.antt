-- ===== src/Links/Add.antt =====
-- Insertion into a ring.
use oslabcode.Prelude.{
  ℕ, ◌≡◌, refl, sym, ap, ◌⊎◌, inl, inr, List, [], ◌∷◌, ◌++◌, append_assoc, arith, count,
  count-append,
}
use oslabcode.Links.{Links, link_between, list_add_after, list_add_before}
use oslabcode.Links.Ring.{IsRing, Seg-frame, Seg-split, rotate}

-- An entry inserted behind the head comes first.
pub list_add_after-cons :
    (s : Links) (h e : ℕ) (xs : List ℕ)
    → IsRing s h xs
    → count e (h ∷ xs) ≡ 0
    → IsRing (list_add_after s h e) h (e ∷ xs)
unfolding list_add_after
list_add_after-cons s h e [] r out = record {
  chain = (ground arith, ground arith, (ground arith, ground arith));
  distinct = λ a. ground (arith, r.distinct a);
}
list_add_after-cons s h e (x ∷ xs) r out = record {
  chain = (
    ground arith,
    ground (arith, r.chain),
    (
      ground (arith, r.chain),
      ground (arith, r.chain, r.distinct x),
      Seg-frame s (list_add_after s h e) x h xs (λ n i. ground (arith, r.distinct n))
          (λ n i. ground (arith, r.distinct n, r.distinct x, r.chain)) r.chain.2,
    ),
  );
  distinct = λ a. ground (arith, r.distinct a);
}

-- The backward pointer of the head leads to the last entry.
prev-append : (s : Links) (h x : ℕ) (xs : List ℕ) → IsRing s h (xs ++ x ∷ []) → s.prev h ≡ x
prev-append s h x xs r = (Seg-split s h x h xs [] r.chain).1.1

-- The same insertion, seen from the last entry.
list_add_before-eq-after :
    (s : Links) (h x e : ℕ)
    → s.prev h ≡ x
    → s.next x ≡ h
    → list_add_before s h e ≡ list_add_after s x e
unfolding list_add_before list_add_after
list_add_before-eq-after s h x e p q = λ i. link_between s e (p i) (sym q i)

-- A list is empty or has a last item.
pub snoc-cases : (xs : List ℕ) → (xs ≡ []) ⊎ ((ys : List ℕ) × (y : ℕ) × (xs ≡ ys ++ y ∷ []))
snoc-cases [] = inl refl
snoc-cases (x ∷ xs) = elim (snoc-cases xs) [
  | inl e ↦ inr ([], x, ap (λ l. x ∷ l) e)
  | inr (ys, y, e) ↦ inr (x ∷ ys, y, ap (λ l. x ∷ l) e)
]

add_before-snoc :
    (s : Links) (h e x : ℕ) (xs : List ℕ)
    → IsRing s h (xs ++ x ∷ [])
    → count e (h ∷ xs ++ x ∷ []) ≡ 0
    → IsRing (list_add_before s h e) h ((xs ++ x ∷ []) ++ e ∷ [])
add_before-snoc s h e x xs r out =
    let ends = (Seg-split s h x h xs [] r.chain).1 in
    let turned = rotate s h x xs [] r in
    let added =
      list_add_after-cons s x e (h ∷ xs) turned (omega (arith, out, count-append e xs (x ∷ []))) in
    rw (list_add_before-eq-after s h x e ends.1 ends.0, append_assoc)
      (rotate (list_add_after s x e) x h (e ∷ []) xs added)

-- A new entry inserted before the head of a ring comes last.
pub list_add_before-append :
    (s : Links) (h e : ℕ) (xs : List ℕ)
    → IsRing s h xs
    → count e (h ∷ xs) ≡ 0
    → IsRing (list_add_before s h e) h (xs ++ e ∷ [])
list_add_before-append s h e xs r out = elim (snoc-cases xs) [
  | inl nil ↦
      let r' = (rw nil at r) in
      rw (nil, list_add_before-eq-after s h h e r'.chain.1 r'.chain.0)
        (list_add_after-cons s h e [] r' (rw nil at out))
  | inr (ys, y, snoc) ↦ rw snoc (add_before-snoc s h e y ys (rw snoc at r) (rw snoc at out))
]

-- A new entry inserted behind an entry of a ring stands behind that entry.
pub list_add_after-append :
    (s : Links) (h x e : ℕ) (xs ys : List ℕ)
    → IsRing s h (xs ++ x ∷ ys)
    → count e (h ∷ xs ++ x ∷ ys) ≡ 0
    → IsRing (list_add_after s x e) h (xs ++ x ∷ e ∷ ys)
list_add_after-append s h x e xs ys r out = rotate (list_add_after s x e) x h (e ∷ ys) xs (
    list_add_after-cons s x e (ys ++ h ∷ xs) (rotate s h x xs ys r)
      (omega (arith, out, count-append e xs (x ∷ ys), count-append e ys (h ∷ xs))))

-- Insertion before an entry of the ring.
pub list_add_before_middle :
    (s : Links) (h x e : ℕ) (xs ys : List ℕ)
    → IsRing s h (xs ++ x ∷ ys)
    → count e (h ∷ xs ++ x ∷ ys) ≡ 0
    → IsRing (list_add_before s x e) h (xs ++ e ∷ x ∷ ys)
list_add_before_middle s h x e xs ys r out =
    let turned = rotate s h x xs ys r in
    let added =
      list_add_before-append s x e (ys ++ h ∷ xs) turned
        (omega (arith, out, count-append e xs (x ∷ ys), count-append e ys (h ∷ xs))) in
    rw (← append_assoc xs (e ∷ []) (x ∷ ys))
      (rotate (list_add_before s x e) x h ys (xs ++ e ∷ []) (rw append_assoc at added))
