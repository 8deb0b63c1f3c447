-- ===== src/Prelude/Slices.antt =====
-- `for start in range(0, len(xs), n): xs[start : start + n]`: the batches that cover a list.
use rag_ingestion_service.Prelude.{
  All, Bool-cases, List, [], arith, drop, if◌then◌else◌, inl, inr, length, ltb, nat_eq, option_eq,
  refl, suc, sym, take, take-append-drop, text_eq, zero, ℕ, ◌+◌, ◌<◌, ◌∙◌, ◌∷◌, ◌≡◌, ◌≤◌,
}
use native.Mathlib.Nat.{zero-add, suc-add}
use mathlib.Core.List.{flatten}

module _ {ℓ} {A : Type ℓ} where
  -- The batches from `start` on; the fuel bounds their number.
  slices_from : ℕ → ℕ → ℕ → List A → List (List A)
  slices_from zero n start xs = []
  slices_from (suc fuel) n start xs =
      let rest = slices_from fuel n (start + n) xs in
      if ltb start (length xs) then take n (drop start xs) ∷ rest else []

  -- For a positive `n`, there are at most as many batches as elements.
  unfoldable pub slices : ℕ → List A → List (List A)
  unfolding slices_from
  slices n xs = slices_from (length xs) n 0 xs

  pub drop_all : (n : ℕ) (xs : List A) → length xs ≤ n → drop n xs ≡ []
  drop_all zero [] h = refl
  drop_all zero (x ∷ xs) h = absurd (omega arith)
  drop_all (suc n) [] h = refl
  drop_all (suc n) (x ∷ xs) h = drop_all n xs (omega arith)

  -- A batch that starts within the list is not empty.
  pub length-take-drop :
      (n start : ℕ) (xs : List A) → 0 < n → start < length xs → 0 < length (take n (drop start xs))
  length-take-drop zero start xs pos more = absurd (omega arith)
  length-take-drop (suc n) start [] pos more = absurd (omega arith)
  length-take-drop (suc n) zero (x ∷ xs) pos more = omega arith
  length-take-drop (suc n) (suc start) (x ∷ xs) pos more =
      length-take-drop (suc n) start xs pos (omega arith)

  pub drop-drop : (m n : ℕ) (xs : List A) → drop n (drop m xs) ≡ drop (m + n) xs
  drop-drop zero n xs = rw zero-add
  drop-drop (suc m) n [] = drop_all n [] (omega arith) ∙ sym (drop_all (suc m + n) [] (omega arith))
  drop-drop (suc m) n (x ∷ xs) = rw suc-add (drop-drop m n xs)

  flatten-slices_from :
      (fuel n start : ℕ) (xs : List A)
      → 0 < n
      → length xs ≤ start + fuel
      → flatten (slices_from fuel n start xs) ≡ drop start xs
  unfolding slices_from flatten
  flatten-slices_from zero n start xs pos h = sym (drop_all start xs (omega arith))
  flatten-slices_from (suc fuel) n start xs pos h = elim (Bool-cases (ltb start (length xs))) [
    | inl more ↦
        rw
          (
            more,
            flatten-slices_from fuel n (start + n) xs pos (omega arith),
            ← drop-drop start n xs,
          )
          (take-append-drop n (drop start xs))
    | inr done ↦ rw done (sym (drop_all start xs (ground arith)))
  ]

  -- The batches, one behind the other, are the list.
  pub flatten-slices : (n : ℕ) (xs : List A) → 0 < n → flatten (slices n xs) ≡ xs
  unfolding slices
  flatten-slices n xs pos = flatten-slices_from (length xs) n 0 xs pos (omega arith)

  pub length-take-le : (n : ℕ) (xs : List A) → length (take n xs) ≤ n
  length-take-le zero xs = omega arith
  length-take-le (suc n) [] = omega arith
  length-take-le (suc n) (x ∷ xs) = omega (arith, length-take-le n xs)

  slices_from-le :
      (fuel n start : ℕ) (xs : List A) → All (λ b. length b ≤ n) (slices_from fuel n start xs)
  unfolding slices_from
  slices_from-le zero n start xs = tt
  slices_from-le (suc fuel) n start xs = elim (Bool-cases (ltb start (length xs))) [
    | inl more ↦ rw more (length-take-le n (drop start xs), slices_from-le fuel n (start + n) xs)
    | inr done ↦ rw done tt
  ]

  -- No batch holds more than `n` elements.
  pub slices-le : (n : ℕ) (xs : List A) → All (λ b. length b ≤ n) (slices n xs)
  unfolding slices
  slices-le n xs = slices_from-le (length xs) n 0 xs
