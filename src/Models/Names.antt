-- ===== src/Models/Names.antt =====
-- app/db/models.py: `uq_rag_sets_owner_name`, which every statement of the service keeps. Two names are
-- the same where Postgres' `lower` folds them to one text.
use rag_ingestion_service.Models.{
  integrity_error, update_rag_row, insert_rag, Db, RagSet, is_alive, same_name, delete_rag_row,
}
use rag_ingestion_service.Models.Writes.{guarded}
use rag_ingestion_service.Models.Stable.{
  sets-KeepsRows, IsStable, both-KeepsRows, both-KeepsRemovals, KeepsRemovals,
}
use rag_ingestion_service.Models.Consistency.{IsConsistent-IsStable}
use rag_ingestion_service.Models.Integrity.{IsConsistent, count-snoc, count-filter-le}
use rag_ingestion_service.Prelude.{
  Bool, Bool-cases, List, Text, [], arith, false, if◌then◌else◌, inl, inr, map, nat_eq, not,
  option_eq, refl, some, text_eq, true, ℕ, ◌&&◌, ◌++◌, ◌==◌, ◌∷◌, ◌≡◌, ◌≤◌,
}
use rag_ingestion_service.Prelude.Filter.{filter, any, count}
use rag_ingestion_service.Repo.{soft_delete_rag}

module _ (fold : Text → Text) where
  abbrev pub is_named : ℕ → Text → RagSet → Bool
  is_named owner_id name r = is_alive r && r.owner_id == owner_id && fold r.name == name

  -- No owner has two alive sets of one name.
  abbrev pub UniqueNames : List RagSet → Type 0
  UniqueNames rows = (owner_id : ℕ) (name : Text) → count (is_named owner_id name) rows ≤ 1

  abbrev pub HasUniqueNames : Db → Type 0
  HasUniqueNames db = UniqueNames db.rag_sets

  -- A set that clashes with none takes a name that none has.
  no_clash :
      (rag : RagSet) (owner_id : ℕ) (name : Text) (rows : List RagSet)
      → is_named owner_id name rag ≡ true
      → any (same_name fold rag) rows ≡ false
      → count (is_named owner_id name) rows ≡ 0
  unfolding any count filter
  no_clash rag owner_id name [] mine free = refl
  no_clash rag owner_id name (r ∷ rows) mine free = ground (arith, no_clash rag owner_id name rows)

  inserted :
      (rag : RagSet) (rows : List RagSet)
      → any (same_name fold rag) rows ≡ false
      → UniqueNames rows
      → UniqueNames (rows ++ rag ∷ [])
  inserted rag rows free h owner_id name = ground (
    arith,
    count-snoc (is_named owner_id name) rows rag,
    no_clash rag owner_id name rows,
    h owner_id name,
  )

  renamed_to :
      (rag : RagSet) (owner_id : ℕ) (name : Text) (rows : List RagSet)
      → is_named owner_id name rag ≡ true
      → any (λ r. not (r.id == rag.id) && same_name fold rag r) rows ≡ false
      → count (is_named owner_id name) (map (λ r. if r.id == rag.id then rag else r) rows)
        ≤ count (λ r. r.id == rag.id) rows
  unfolding any count filter
  renamed_to rag owner_id name [] mine free = omega arith
  renamed_to rag owner_id name (r ∷ rows) mine free =
      ground (arith, renamed_to rag owner_id name rows)

  renamed_from :
      (rag : RagSet) (owner_id : ℕ) (name : Text) (rows : List RagSet)
      → is_named owner_id name rag ≡ false
      → count (is_named owner_id name) (map (λ r. if r.id == rag.id then rag else r) rows)
        ≤ count (is_named owner_id name) rows
  unfolding count filter
  renamed_from rag owner_id name [] other = omega arith
  renamed_from rag owner_id name (r ∷ rows) other =
      ground (arith, renamed_from rag owner_id name rows)

  replaced :
      (rag : RagSet) (rows : List RagSet)
      → count (λ r. r.id == rag.id) rows ≤ 1
      → any (λ r. not (r.id == rag.id) && same_name fold rag r) rows ≡ false
      → UniqueNames rows
      → UniqueNames (map (λ r. if r.id == rag.id then rag else r) rows)
  replaced rag rows once free h owner_id name = elim (Bool-cases (is_named owner_id name rag)) [
    | inl mine ↦
        let fewer = renamed_to rag owner_id name rows mine free in omega (arith, once, fewer)
    | inr other ↦
        let fewer = renamed_from rag owner_id name rows other in
        omega (arith, h owner_id name, fewer)
  ]

  count-dead :
      (now rag_id owner_id : ℕ) (name : Text) (rows : List RagSet)
      → count (is_named owner_id name) (
          map
            (λ r.
              if r.id == rag_id then record r { deleted_at = some now; updated_at = now } else r)
            rows)
        ≤ count (is_named owner_id name) rows
  unfolding count filter
  count-dead now rag_id owner_id name [] = omega arith
  count-dead now rag_id owner_id name (r ∷ rows) =
      ground (arith, count-dead now rag_id owner_id name rows)

  HasUniqueNames-KeepsRemovals : KeepsRemovals HasUniqueNames
  unfolding delete_rag_row soft_delete_rag
  HasUniqueNames-KeepsRemovals = record {
    delete_rag_row = λ rag_id db h owner_id name. omega (
      arith,
      count-filter-le (is_named owner_id name) (λ r. not (r.id == rag_id)) db.rag_sets,
      h owner_id name,
    );
    soft_delete_rag = λ now rag_id db h owner_id name.
        let fewer = count-dead now rag_id owner_id name db.rag_sets in
        omega (arith, fewer, h owner_id name);
  }

  -- Beside the consistency, which has each key once.
  abbrev pub IsNamed : Db → Type 0
  IsNamed db = IsConsistent db × HasUniqueNames db

  pub IsNamed-IsStable : IsStable fold IsNamed
  unfolding insert_rag update_rag_row
  IsNamed-IsStable =
      let tidy = IsConsistent-IsStable fold in
      record {
        rows = both-KeepsRows tidy.rows (sets-KeepsRows UniqueNames);
        removals = both-KeepsRemovals tidy.removals HasUniqueNames-KeepsRemovals;
        insert_rag = λ rag db db' e (h, named).
            let (free, made) = guarded integrity_error e in
            (
              tidy.insert_rag rag db db' e h,
              rw (← made) (inserted rag db.rag_sets (ground arith) named),
            );
        update_rag_row = λ rag db db' e (h, named).
            let (free, made) = guarded integrity_error e in
            (
              tidy.update_rag_row rag db db' e h,
              rw (← made) (replaced rag db.rag_sets (h.rag_ids rag.id) (ground arith) named),
            );
      }
