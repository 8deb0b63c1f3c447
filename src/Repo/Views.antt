-- ===== src/Repo/Views.antt =====
-- app/db/repo.py: what the owners can reach, as a map from owners and keys to sets, and what the
-- statements on the table of sets make of it.
use rag_ingestion_service.Prelude.{
  List, Option, [], arith, if◌then◌else◌, map, nat_eq, none, not, option_eq, refl, some, text_eq,
  false, ℕ, ◌==◌, ◌∷◌, ◌++◌, ◌&&◌, ◌≡◌, ◌≢◌, ◌≤◌,
}
use rag_ingestion_service.Prelude.Filter.{filter, any, count}
use rag_ingestion_service.Models.{Db, RagSet}
use rag_ingestion_service.Repo.{is_owned, get_rag, scalar_one_or_none}

-- For an owner and a key the set, if the owner can reach one.
abbrev pub View : Type 0
View = ℕ → ℕ → Option RagSet

abbrev pub reach : List RagSet → View
reach rows owner_id rag_id = scalar_one_or_none (filter (is_owned rag_id owner_id) rows)

unfoldable pub view : Db → View
view db owner_id rag_id = get_rag db rag_id owner_id

-- The owner of the set has it under its key.
unfoldable pub put : RagSet → View → View
put rag v owner_id rag_id =
    if owner_id == rag.owner_id && rag_id == rag.id then some rag else v owner_id rag_id

-- One owner loses a key.
unfoldable pub erase : ℕ → ℕ → View → View
erase owner rag v owner_id rag_id =
    if owner_id == owner && rag_id == rag then none else v owner_id rag_id

-- Everyone loses a key.
unfoldable pub forget : ℕ → View → View
forget rag v owner_id rag_id = if rag_id == rag then none else v owner_id rag_id

pub reach-snoc :
    (new : RagSet) (owner_id rag_id : ℕ) (rows : List RagSet)
    → new.deleted_at ≡ none
    → any (λ r. r.id == new.id) rows ≡ false
    → reach (rows ++ new ∷ []) owner_id rag_id ≡ put new (reach rows) owner_id rag_id
unfolding filter any put
reach-snoc new owner_id rag_id [] alive free = ground arith
reach-snoc new owner_id rag_id (r ∷ rows) alive free =
    ground (arith, reach-snoc new owner_id rag_id rows alive)

pub reach-filter :
    (gone owner_id rag_id : ℕ) (rows : List RagSet)
    → reach (filter (λ r. not (r.id == gone)) rows) owner_id rag_id
      ≡ forget gone (reach rows) owner_id rag_id
unfolding filter forget
reach-filter gone owner_id rag_id [] = ground arith
reach-filter gone owner_id rag_id (r ∷ rows) =
    ground (arith, reach-filter gone owner_id rag_id rows)

no_key :
    (k owner_id : ℕ) (rows : List RagSet)
    → count (λ r. r.id == k) rows ≡ 0
    → reach rows owner_id k ≡ none
unfolding count filter
no_key k owner_id [] h = refl
no_key k owner_id (r ∷ rows) h = ground (arith, no_key k owner_id rows)

-- A key that is not taken is out of everyone's reach.
pub reach-any :
    (k owner_id : ℕ) (rows : List RagSet)
    → any (λ r. r.id == k) rows ≡ false
    → reach rows owner_id k ≡ none
unfolding any filter
reach-any k owner_id [] h = refl
reach-any k owner_id (r ∷ rows) h = ground (arith, reach-any k owner_id rows)

-- Where a key stands once, one owner at most reaches it.
pub sole_owner :
    (k user_id owner_id : ℕ) (rag : RagSet) (rows : List RagSet)
    → count (λ r. r.id == k) rows ≤ 1
    → reach rows user_id k ≡ some rag
    → owner_id ≢ user_id
    → reach rows owner_id k ≡ none
unfolding count filter
sole_owner k user_id owner_id rag [] once found other = refl
sole_owner k user_id owner_id rag (r ∷ rows) once found other =
    ground
      (arith, sole_owner k user_id owner_id rag rows, no_key k owner_id rows, no_key k user_id rows)

replaced_key :
    (new : RagSet) (rag : RagSet) (rows : List RagSet)
    → new.deleted_at ≡ none
    → count (λ r. r.id == new.id) rows ≤ 1
    → reach rows new.owner_id new.id ≡ some rag
    → reach (map (λ r. if r.id == new.id then new else r) rows) new.owner_id new.id ≡ some new
unfolding count filter
replaced_key new rag [] alive once found = cc
replaced_key new rag (r ∷ rows) alive once found = ground (arith, replaced_key new rag rows alive)

replaced_ne :
    (new : RagSet) (owner_id rag_id : ℕ) (rows : List RagSet)
    → rag_id ≢ new.id
    → reach (map (λ r. if r.id == new.id then new else r) rows) owner_id rag_id
      ≡ reach rows owner_id rag_id
unfolding filter
replaced_ne new owner_id rag_id [] other = refl
replaced_ne new owner_id rag_id (r ∷ rows) other =
    ground (arith, replaced_ne new owner_id rag_id rows other)

replaced_owner :
    (new : RagSet) (owner_id rag_id : ℕ) (rows : List RagSet)
    → owner_id ≢ new.owner_id
    → reach rows owner_id rag_id ≡ none
    → reach (map (λ r. if r.id == new.id then new else r) rows) owner_id rag_id ≡ none
unfolding filter
replaced_owner new owner_id rag_id [] other h = refl
replaced_owner new owner_id rag_id (r ∷ rows) other h =
    ground (arith, replaced_owner new owner_id rag_id rows other)

-- New values of a set under its key.
pub reach-map :
    (new rag : RagSet) (owner_id rag_id : ℕ) (rows : List RagSet)
    → new.deleted_at ≡ none
    → count (λ r. r.id == new.id) rows ≤ 1
    → reach rows new.owner_id new.id ≡ some rag
    → reach (map (λ r. if r.id == new.id then new else r) rows) owner_id rag_id
      ≡ put new (reach rows) owner_id rag_id
unfolding put
reach-map new rag owner_id rag_id rows alive once found = elim (nat_eq.dec rag_id new.id) [
  | no differs ↦ ground (arith, replaced_ne new owner_id rag_id rows differs)
  | yes same ↦ elim (nat_eq.dec owner_id new.owner_id) [
    | yes owner ↦ rw (same, owner) (ground (arith, replaced_key new rag rows alive once found))
    | no other ↦
        let nobody = sole_owner new.id new.owner_id owner_id rag rows once found other in
        rw same (ground (arith, nobody, replaced_owner new owner_id new.id rows other nobody))
  ]
]

deleted_key :
    (now gone owner_id : ℕ) (rows : List RagSet)
    → reach
        (map
          (λ r. if r.id == gone then record r { deleted_at = some now; updated_at = now } else r)
          rows)
        owner_id
        gone
      ≡ none
unfolding filter
deleted_key now gone owner_id [] = refl
deleted_key now gone owner_id (r ∷ rows) = ground (arith, deleted_key now gone owner_id rows)

deleted_ne :
    (now gone owner_id rag_id : ℕ) (rows : List RagSet)
    → rag_id ≢ gone
    → reach
        (map
          (λ r. if r.id == gone then record r { deleted_at = some now; updated_at = now } else r)
          rows)
        owner_id
        rag_id
      ≡ reach rows owner_id rag_id
unfolding filter
deleted_ne now gone owner_id rag_id [] other = refl
deleted_ne now gone owner_id rag_id (r ∷ rows) other =
    ground (arith, deleted_ne now gone owner_id rag_id rows other)

-- The deletion of a set that its owner reaches takes nothing from anyone else.
pub reach-deleted :
    (now gone user_id : ℕ) (rag : RagSet) (owner_id rag_id : ℕ) (rows : List RagSet)
    → count (λ r. r.id == gone) rows ≤ 1
    → reach rows user_id gone ≡ some rag
    → reach
        (map
          (λ r. if r.id == gone then record r { deleted_at = some now; updated_at = now } else r)
          rows)
        owner_id
        rag_id
      ≡ erase user_id gone (reach rows) owner_id rag_id
unfolding erase
reach-deleted now gone user_id rag owner_id rag_id rows once found = elim (nat_eq.dec rag_id gone) [
  | no differs ↦ ground (arith, deleted_ne now gone owner_id rag_id rows differs)
  | yes same ↦ elim (nat_eq.dec owner_id user_id) [
    | yes owner ↦ rw (same, owner) (ground (arith, deleted_key now gone user_id rows))
    | no other ↦
        let nobody = sole_owner gone user_id owner_id rag rows once found other in
        rw same (ground (arith, nobody, deleted_key now gone owner_id rows))
  ]
]
