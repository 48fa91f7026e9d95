-- ===== src/Connection/Slices.antt =====
-- The slices of src/pyads/ads.py are the list, in parts of the size asked for.
use pyads_agile.Prelude.{
  ℕ, zero, suc, ◌+◌, ◌-◌, ◌≤◌, ◌≡◌, refl, sym, ap, ◌∙◌, arith, List, [], ◌∷◌, ◌++◌, Bool-cases, inl,
  inr, ltb, ltb→lt, ne→==, All, length, take, drop, take-append-drop, length-take-le, length-drop,
  ok,
}
use pyads_agile.Connection.Calls.{slices_of, slice_generator}

abbrev pub concat : {A : Type 0} → List (List A) → List A
concat [] = []
concat (xs ∷ xss) = xs ++ concat xss

-- the slice is not empty, and not longer than this
abbrev pub IsSlice : {A : Type 0} → ℕ → List A → Type 0
IsSlice size xs = (1 ≤ length xs) × (length xs ≤ size)

length-take_some :
    {A : Type 0} (n : ℕ) (xs : List A) → 1 ≤ n → 1 ≤ length xs → 1 ≤ length (take n xs)
length-take_some zero xs h l = absurd (omega arith)
length-take_some (suc n) [] h l = absurd (omega arith)
length-take_some (suc n) (x ∷ xs) h l = omega arith

no_elements : {A : Type 0} (xs : List A) → length xs ≤ 0 → xs ≡ []
no_elements [] l = refl
no_elements (x ∷ xs) l = absurd (omega arith)

slices_of-concat :
    {A : Type 0} (rounds start stop size : ℕ) (xs : List A)
    → 1 ≤ size
    → length xs ≡ stop - start
    → stop - start ≤ rounds
    → (concat (slices_of rounds start stop size xs) ≡ xs)
      × All (IsSlice size) (slices_of rounds start stop size xs)
slices_of-concat zero start stop size xs h l r = (sym (no_elements xs (omega arith)), tt)
slices_of-concat (suc rounds) start stop size xs h l r = elim (Bool-cases (ltb start stop)) [
  | inl more ↦
      let before = ltb→lt start stop more in
      let (a, b) =
        slices_of-concat rounds (start + size) stop size (drop size xs) h
          (omega (arith, length-drop size xs)) (omega arith) in
      rw more (
        ap (λ t. take size xs ++ t) a ∙ take-append-drop size xs,
        ((length-take_some size xs h (omega arith), length-take-le size xs), b),
      )
  | inr over ↦ rw over (sym (no_elements xs (ground arith)), tt)
]

-- For a size of at least 1 the slices, one behind the other, are the list, and none of them is empty or
-- longer than the size.
pub slice_generator-concat :
    {A : Type 0} (xs : List A) (size : ℕ)
    → 1 ≤ size
    → (slices : List (List A)) × (slice_generator xs size ≡ ok slices)
      × (concat slices ≡ xs)
      × All (IsSlice size) slices
unfolding slice_generator
slice_generator-concat xs size h =
    let (a, b) = slices_of-concat (length xs) 0 (length xs) size xs h (omega arith) (omega arith) in
    (slices_of (length xs) 0 (length xs) size xs, rw (ne→== size 0 (omega arith)) refl, a, b)
