-- ===== src/Steps/Quota.antt =====
-- app/api/rags.py: the quota of sets of an owner, `rag_max_sets_per_owner`.
use rag_ingestion_service.Prelude.{
  ◌+◌, ◌∙◌, none, ◌==◌, List, Text, [], ap, arith, nat_eq, not, option_eq, sym, text_eq, ℕ, ◌++◌,
  ◌∷◌, ◌≡◌, ◌≤◌, map, some, if◌then◌else◌,
}
use rag_ingestion_service.Steps.Edits.{IsSameSet}
use rag_ingestion_service.Steps.Replacement.{count-replaced}
use rag_ingestion_service.Models.{update_rag_row, Db, RagSet, insert_rag, delete_rag_row}
use rag_ingestion_service.Models.Stable.{sets-KeepsRows, KeepsRemovals, KeepsRows}
use rag_ingestion_service.Models.Integrity.{IsConsistent, count-snoc, count-filter-le}
use rag_ingestion_service.Repo
use rag_ingestion_service.Repo.Isolation.{get_rag-owned}
use rag_ingestion_service.Prelude.Filter.{filter, count}
use rag_ingestion_service.Prelude.Result.{ok}
use rag_ingestion_service.Errors.{integrity_error}
use rag_ingestion_service.Models.Writes.{guarded}
use rag_ingestion_service.Repo.{count_rags, is_alive_of, soft_delete_rag}

-- With those that are pending, no owner has more alive sets than the limit.
abbrev pub IsWithin : (ℕ → ℕ) → ℕ → Db → Type 0
IsWithin pending limit db = (owner_id : ℕ) → count_rags db owner_id + pending owner_id ≤ limit

-- One more is pending for the owner.
abbrev pub raised : ℕ → (ℕ → ℕ) → ℕ → ℕ
raised user_id pending owner_id =
    if owner_id == user_id then pending owner_id + 1 else pending owner_id

inserted_sets :
    (fold : Text → Text) (rag : RagSet) (db db' : Db)
    → insert_rag fold rag db ≡ ok db'
    → db'.rag_sets ≡ db.rag_sets ++ rag ∷ []
unfolding insert_rag
inserted_sets fold rag db db' e =
    let (free, made) = guarded integrity_error e in ap (λ (d : Db). d.rag_sets) (sym made)

count-dead :
    (now rag_id owner_id : ℕ) (rows : List RagSet)
    → count (is_alive_of owner_id) (
        map
          (λ r. if r.id == rag_id then record r { deleted_at = some now; updated_at = now } else r)
          rows)
      ≤ count (is_alive_of owner_id) rows
unfolding count filter
count-dead now rag_id owner_id [] = omega arith
count-dead now rag_id owner_id (r ∷ rows) = ground (arith, count-dead now rag_id owner_id rows)

-- The statements on documents, batches and jobs leave the sets alone.
pub IsWithin-KeepsRows : (pending : ℕ → ℕ) (limit : ℕ) → KeepsRows (IsWithin pending limit)
unfolding count_rags
IsWithin-KeepsRows pending limit =
    sets-KeepsRows
      (λ rows. (owner_id : ℕ) → count (is_alive_of owner_id) rows + pending owner_id ≤ limit)

-- A removal makes no set alive.
pub IsWithin-KeepsRemovals : (pending : ℕ → ℕ) (limit : ℕ) → KeepsRemovals (IsWithin pending limit)
unfolding count_rags delete_rag_row soft_delete_rag
IsWithin-KeepsRemovals pending limit = record {
  delete_rag_row = λ rag_id db h owner_id. omega (
    arith,
    count-filter-le (is_alive_of owner_id) (λ r. not (r.id == rag_id)) db.rag_sets,
    h owner_id,
  );
  soft_delete_rag = λ now rag_id db h owner_id.
      let fewer = count-dead now rag_id owner_id db.rag_sets in omega (arith, fewer, h owner_id);
}

module _ (fold : Text → Text) (pending : ℕ → ℕ) (limit user_id : ℕ) where
  -- A set of the owner that was pending and is written.
  pub insert_rag-IsWithin :
      (rag : RagSet) (db db' : Db)
      → rag.owner_id ≡ user_id
      → rag.deleted_at ≡ none
      → insert_rag fold rag db ≡ ok db'
      → IsWithin (raised user_id pending) limit db
      → IsWithin pending limit db'
  unfolding count_rags
  insert_rag-IsWithin rag db db' owner alive e h owner_id =
      rw (inserted_sets fold rag db db' e)
        (ground (arith, count-snoc (is_alive_of owner_id) db.rag_sets rag, h owner_id))

  -- New values of a set of the owner are no set more.
  pub update_rag_row-IsWithin :
      (rag_id : ℕ) (rag new : RagSet) (db db' : Db)
      → Repo.get_rag db rag_id user_id ≡ some rag
      → IsSameSet rag new
      → update_rag_row fold new db ≡ ok db'
      → IsConsistent db × IsWithin pending limit db
      → IsWithin pending limit db'
  unfolding update_rag_row count_rags Repo.get_rag
  update_rag_row-IsWithin rag_id rag new db db' found same e (tidy, h) owner_id =
      let (_, made) = guarded integrity_error e in
      let (key, _, _) = get_rag-owned db rag_id user_id rag found in
      let as_key : new.id ≡ rag_id = same.id ∙ key in
      let found_new : Repo.get_rag db new.id user_id ≡ some rag = rw as_key found in
      let no_more =
        count-replaced new.id user_id rag new owner_id db.rag_sets (tidy.rag_ids new.id) found_new
          same.owner_id same.deleted_at in
      rw (← made) (omega (arith, no_more, h owner_id))
