-- ===== src/Steps/Replacement.antt =====
-- app/api/rags.py: a changed set stays a set of its owner.
use rag_ingestion_service.Prelude.{
  Bool-cases, List, [], arith, if◌then◌else◌, inl, inr, map, nat_eq, option_eq, refl, some, text_eq,
  true, ℕ, ◌==◌, ◌∷◌, ◌≡◌, ◌≤◌,
}
use rag_ingestion_service.Prelude.Filter.{filter, count}
use rag_ingestion_service.Models.{RagSet}
use rag_ingestion_service.Repo.{is_alive_of, is_owned, scalar_one_or_none}

module _ (k user_id : ℕ) where
  none_owned :
      (rows : List RagSet) → count (λ r. r.id == k) rows ≡ 0 → filter (is_owned k user_id) rows ≡ []
  unfolding count filter
  none_owned [] h = refl
  none_owned (r ∷ rows) h = ground (arith, none_owned rows)

  untouched :
      (new : RagSet) (rows : List RagSet)
      → count (λ r. r.id == k) rows ≡ 0
      → map (λ r. if r.id == k then new else r) rows ≡ rows
  unfolding count filter
  untouched new [] h = refl
  untouched new (r ∷ rows) h = ground (arith, untouched new rows)

  -- Where a key stands once, new values of the owner's set make nobody's sets more.
  pub count-replaced :
      (rag new : RagSet) (owner_id : ℕ) (rows : List RagSet)
      → count (λ r. r.id == k) rows ≤ 1
      → scalar_one_or_none (filter (is_owned k user_id) rows) ≡ some rag
      → new.owner_id ≡ rag.owner_id
      → new.deleted_at ≡ rag.deleted_at
      → count (is_alive_of owner_id) (map (λ r. if r.id == k then new else r) rows)
        ≤ count (is_alive_of owner_id) rows
  unfolding count filter
  count-replaced rag new owner_id [] once found own alive = omega arith
  count-replaced rag new owner_id (r ∷ rows) once found own alive =
      elim (Bool-cases (is_owned k user_id r)) [
        | inl mine ↦
            let first : some r ≡ some rag = rw mine at found in
            let is_rag : r ≡ rag = cc in
            let owned_by : new.owner_id ≡ r.owner_id = rw is_rag own in
            let as_alive : new.deleted_at ≡ r.deleted_at = rw is_rag alive in
            let same : (r.id == k) ≡ true = ground arith in
            let alone : count (λ x. x.id == k) rows ≡ 0 = ground arith in
            rw (same, untouched new rows alone) (ground arith)
        | inr other ↦ elim (Bool-cases (r.id == k)) [
          | inl same ↦
              let alone : count (λ x. x.id == k) rows ≡ 0 = ground arith in
              let later : scalar_one_or_none (filter (is_owned k user_id) rows) ≡ some rag =
                rw other at found in
              let nobody : scalar_one_or_none [] ≡ some rag = rw (none_owned rows alone) at later in
              cc
          | inr differs ↦
              let later : scalar_one_or_none (filter (is_owned k user_id) rows) ≡ some rag =
                rw other at found in
              let fewer : count (λ x. x.id == k) rows ≤ 1 = ground arith in
              let rest = count-replaced rag new owner_id rows fewer later own alive in
              rw differs (ground (arith, rest))
        ]
      ]
