-- ===== src/Archive/Names.antt =====
-- app/archive.py: what `safe_name` lets through, and the loop that finds a free name.
use mathlib.Core.List.{tail-eq_of_cons-eq, append_cancel_left, append_cancel_right}
use native.Mathlib.Numerals.{add-two}
use rag_ingestion_service.Prelude.{
  ℕ, zero, suc, ◌+◌, ◌≤◌, ◌<◌, ◌≡◌, ◌≢◌, inl, inr, true, false, List, [], arith, Text, codes, slash,
  Bool-cases, length, contains, nat_eq, text_eq, remove, length-remove-lt, contains-remove_ne,
}
use rag_ingestion_service.Prelude.Decimal.{decimal_injective}
use rag_ingestion_service.Prelude.Paths.{path_stem, normpath, path_name-LacksSlash}
use rag_ingestion_service.Prelude.Result.{ok}
use rag_ingestion_service.Archive.{
  forward_slashes, safe_name, numbered_name, free_name, unique_name,
}

-- One component of a path, and neither of the two that stand for directories.
pub record IsSafe (name : Text) : Type 0 where
  pub one_component : contains name slash ≡ false
  pub ne_empty : name ≢ []
  pub ne_dot : name ≢ codes "."
  pub ne_dot_dot : name ≢ codes ".."

-- A name that `safe_name` returns is a single component that is no directory.
pub safe_name-IsSafe : (raw name : Text) → safe_name raw ≡ ok name → IsSafe name
unfolding safe_name
safe_name-IsSafe raw name h = ground (arith, path_name-LacksSlash (normpath (forward_slashes raw)))

numbered_name_injective :
    (name suffix : Text) (i j : ℕ)
    → numbered_name name suffix i ≡ numbered_name name suffix j
    → i ≡ j
unfolding numbered_name
numbered_name_injective name suffix i j e = decimal_injective i j (
    append_cancel_right _ _ suffix (tail-eq_of_cons-eq (append_cancel_left (path_stem name) _ _ e)))

module _ (name suffix : Text) (seen : List Text) where
  -- `left` holds the names that the remaining candidates can still collide with.
  free_name_fresh :
      (fuel counter : ℕ) (unique : Text) (left : List Text)
      → length left < fuel
      → (contains seen unique ≡ true → contains left unique ≡ true)
      → ((j : ℕ)
          → counter ≤ j
          → contains seen (numbered_name name suffix j) ≡ true
          → contains left (numbered_name name suffix j) ≡ true)
      → ((j : ℕ) → counter ≤ j → numbered_name name suffix j ≢ unique)
      → contains seen (free_name name suffix seen fuel counter unique) ≡ false
  unfolding free_name
  free_name_fresh zero counter unique left h here later apart = elim h [ ]
  free_name_fresh (suc fuel) counter unique left h here later apart =
      elim (Bool-cases (contains seen unique)) [
        | inr free ↦ rw free free
        | inl taken ↦ rw taken (
            free_name_fresh fuel (counter + 1) (numbered_name name suffix counter)
              (remove unique left) (omega (arith, length-remove-lt unique left (here taken)))
              (λ m.
                rw (contains-remove_ne unique _ left (apart counter (omega arith)))
                  (later counter (omega arith) m))
              (λ j le m.
                rw (contains-remove_ne unique _ left (apart j (omega arith)))
                  (later j (omega arith) m))
              (λ j le e. absurd (omega (arith, numbered_name_injective name suffix j counter e))))
      ]

-- The name that the loop ends with is not taken, for every list of names taken so far.
pub unique_name_fresh :
    (name suffix : Text) (seen : List Text) → contains seen (unique_name name suffix seen) ≡ false
unfolding unique_name
unique_name_fresh name suffix seen = elim (Bool-cases (contains seen name)) [
  | inr free ↦ rw (add-two, free_name, free) free
  | inl taken ↦
      rw (add-two, free_name, taken)
        (free_name_fresh name suffix seen (suc (length seen)) 2 (numbered_name name suffix 1) seen
          (omega arith) (λ m. m) (λ j le m. m)
          (λ j le e. absurd (omega (arith, numbered_name_injective name suffix j 1 e))))
]
