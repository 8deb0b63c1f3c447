-- ===== src/Repo/Isolation.antt =====
-- app/db/repo.py: a query on behalf of an owner sees that owner's live sets and nothing else.
use rag_ingestion_service.Models.{Document, RagSet, Db}
use rag_ingestion_service.Prelude.{
  All, All-imp, Bool, List, Option, [], ap, arith, contains, false, if_ind, if◌then◌else◌, length,
  map, nat_eq, none, option_eq, refl, some, suc, text_eq, true, ℕ, ◌&&◌, ◌==◌, ◌∷◌, ◌≡◌, ◌≢◌,
}
use rag_ingestion_service.Prelude.Filter.{filter, any, count, All-filter}
use rag_ingestion_service.Repo.{
  is_owned, get_rag, soft_delete_rag, is_visible, documents_by_ids, scalar_one_or_none, count_rags,
  list_rags, order_by_desc, insert_desc,
}

first_passes :
    {A : Type 0} (p : A → Bool) (rows : List A) (a : A)
    → scalar_one_or_none (filter p rows) ≡ some a
    → p a ≡ true
unfolding filter
first_passes p [] a h = cc
first_passes p (x ∷ rows) a h = ground (arith, first_passes p rows a)

-- A set that `get_rag` returns has the given key, belongs to the given owner and is not deleted.
pub get_rag-owned :
    (db : Db) (rag_id owner_id : ℕ) (rag : RagSet)
    → get_rag db rag_id owner_id ≡ some rag
    → (rag.id ≡ rag_id) × (rag.owner_id ≡ owner_id) × (rag.deleted_at ≡ none)
unfolding get_rag
get_rag-owned db rag_id owner_id rag h =
    ground (arith, first_passes (is_owned rag_id owner_id) db.rag_sets rag h)

module _ (now rag_id : ℕ) where
  abbrev deleted : RagSet → RagSet
  deleted r = if r.id == rag_id then record r { deleted_at = some now; updated_at = now } else r

  hidden_self :
      (owner_id : ℕ) (rows : List RagSet)
      → filter (is_owned rag_id owner_id) (map deleted rows) ≡ []
  unfolding filter
  hidden_self owner_id [] = refl
  hidden_self owner_id (r ∷ rows) = ground (arith, hidden_self owner_id rows)

  kept_ne :
      (other owner_id : ℕ) (rows : List RagSet)
      → other ≢ rag_id
      → filter (is_owned other owner_id) (map deleted rows) ≡ filter (is_owned other owner_id) rows
  unfolding filter
  kept_ne other owner_id [] h = refl
  kept_ne other owner_id (r ∷ rows) h = ground (arith, kept_ne other owner_id rows h)

  -- After a soft delete no owner can reach the set, and every other set is reached as before.
  pub get_rag-soft_delete_rag :
      (db : Db) (other owner_id : ℕ)
      → get_rag (soft_delete_rag now rag_id db) other owner_id
        ≡ (if other == rag_id then none else get_rag db other owner_id)
  unfolding get_rag soft_delete_rag
  get_rag-soft_delete_rag db other owner_id =
      if_ind
        (λ (o : Option RagSet).
          scalar_one_or_none (filter (is_owned other owner_id) (map deleted db.rag_sets)) ≡ o)
        (other == rag_id) (λ same. ground (arith, hidden_self owner_id db.rag_sets))
        (λ differ. ap scalar_one_or_none (kept_ne other owner_id db.rag_sets (ground arith)))

any_hidden :
    (now rag_id owner_id : ℕ) (rows : List RagSet)
    → any (is_owned rag_id owner_id) (map (deleted now rag_id) rows) ≡ false
unfolding any
any_hidden now rag_id owner_id [] = refl
any_hidden now rag_id owner_id (r ∷ rows) = ground (arith, any_hidden now rag_id owner_id rows)

any_first :
    {A : Type 0} (p : A → Bool) (rows : List A)
    → any p rows ≡ true
    → (a : A) × (scalar_one_or_none (filter p rows) ≡ some a)
unfolding any filter
any_first p [] h = cc
any_first {A} p (x ∷ rows) h =
    if_ind (λ (found : List A). (a : A) × (scalar_one_or_none found ≡ some a)) (p x)
      (λ _. (x, refl)) (λ no. any_first p rows (ground arith))

-- The owner gets a set that is the document's: it has that key and is not deleted.
abbrev pub Reaches : Db → ℕ → Document → Type 0
Reaches db owner_id d =
    (r : RagSet) × (get_rag db d.rag_id owner_id ≡ some r)
    × (r.id ≡ d.rag_id)
    × (r.owner_id ≡ owner_id)
    × (r.deleted_at ≡ none)

is_visible-Reaches :
    (db : Db) (owner_id : ℕ) (d : Document)
    → is_visible db owner_id d ≡ true
    → Reaches db owner_id d
unfolding get_rag
is_visible-Reaches db owner_id d h =
    let (r, e) = any_first (is_owned d.rag_id owner_id) db.rag_sets h in
    let (same, owned, alive) = get_rag-owned db d.rag_id owner_id r e in (r, e, same, owned, alive)

-- The documents looked up for an owner were asked for, and for each of them `get_rag` finds its
-- set for that owner: one that belongs to the owner and is not deleted.
pub documents_by_ids-visible :
    (db : Db) (document_ids : List ℕ) (owner_id : ℕ)
    → All
        (λ d. (contains document_ids d.id ≡ true) × Reaches db owner_id d)
        (documents_by_ids db document_ids owner_id)
unfolding documents_by_ids
documents_by_ids-visible db [] owner_id = tt
documents_by_ids-visible db (x ∷ ids) owner_id =
    All-imp _ _ _ (λ d h. (ground arith, is_visible-Reaches db owner_id d (ground arith)))
      (All-filter (λ d. contains (x ∷ ids) d.id && is_visible db owner_id d) db.documents)

length-insert_desc :
    {A : Type 0} (key : A → ℕ) (x : A) (xs : List A)
    → length (insert_desc key x xs) ≡ suc (length xs)
unfolding insert_desc
length-insert_desc key x [] = refl
length-insert_desc key x (y ∷ ys) = ground (arith, length-insert_desc key x ys)

length-order_by_desc :
    {A : Type 0} (key : A → ℕ) (xs : List A) → length (order_by_desc key xs) ≡ length xs
unfolding order_by_desc
length-order_by_desc key [] = refl
length-order_by_desc key (x ∷ xs) =
    omega (arith, length-insert_desc key x (order_by_desc key xs), length-order_by_desc key xs)

-- The number that the limit of sets is compared with is the number of sets that the owner sees.
pub length-list_rags :
    (db : Db) (owner_id : ℕ) → length (list_rags db owner_id) ≡ count_rags db owner_id
unfolding list_rags count_rags count
length-list_rags db owner_id = length-order_by_desc (λ r. r.updated_at) _
