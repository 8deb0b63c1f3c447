-- ===== src/Repo/Order.antt =====
-- app/db/repo.py: `ORDER BY … DESC`, and the list of an owner's sets.
use rag_ingestion_service.Prelude.{
  All-imp, arith, leb, ◌&&◌, if_ind, ◌==◌, ◌≤◌, All, ◌∷◌, List, ℕ, [], nat_eq, option_eq, text_eq,
}
use rag_ingestion_service.Models.{is_none, RagSet, Db}
use rag_ingestion_service.Prelude.Filter.{filter}
use mathlib.Core.List.Perm
use mathlib.Core.List.{Perm}
use rag_ingestion_service.Repo.{order_by_desc, insert_desc, list_rags}

module _ {A : Type 0} (key : A → ℕ) where
  -- Each item's key is at least that of every later one.
  abbrev pub Descending : List A → Type 0
  Descending [] = Unit
  Descending (x ∷ xs) = All (λ y. key y ≤ key x) xs × Descending xs

  insert_desc-Perm : (x : A) (xs : List A) → Perm (insert_desc key x xs) (x ∷ xs)
  unfolding insert_desc
  insert_desc-Perm x [] = Perm.refl _
  insert_desc-Perm x (y ∷ ys) =
      if_ind (λ (zs : List A). Perm zs (x ∷ y ∷ ys)) (leb (key y) (key x)) (λ _. Perm.refl _)
        (λ _. Perm.trans (Perm.cons y (insert_desc-Perm x ys)) (Perm.swap x y ys))

  order_by_desc-Perm : (xs : List A) → Perm (order_by_desc key xs) xs
  unfolding order_by_desc
  order_by_desc-Perm [] = Perm.refl _
  order_by_desc-Perm (x ∷ xs) =
      Perm.trans (insert_desc-Perm x (order_by_desc key xs)) (Perm.cons x (order_by_desc-Perm xs))

  insert_desc-All :
      (P : A → Type 0) (x : A) (xs : List A) → P x → All P xs → All P (insert_desc key x xs)
  unfolding insert_desc
  insert_desc-All P x [] p h = (p, tt)
  insert_desc-All P x (y ∷ ys) p (q, h) =
      if_ind (λ (zs : List A). All P zs) (leb (key y) (key x)) (λ _. (p, (q, h)))
        (λ _. (q, insert_desc-All P x ys p h))

  insert_desc-Descending : (x : A) (xs : List A) → Descending xs → Descending (insert_desc key x xs)
  unfolding insert_desc
  insert_desc-Descending x [] d = (tt, tt)
  insert_desc-Descending x (y ∷ ys) (h, d) =
      if_ind Descending (leb (key y) (key x))
        (λ le. ((ground arith, All-imp _ _ ys (λ z k. ground arith) h), (h, d)))
        (λ more. (
          insert_desc-All (λ z. key z ≤ key y) x ys (ground arith) h,
          insert_desc-Descending x ys d,
        ))

  order_by_desc-Descending : (xs : List A) → Descending (order_by_desc key xs)
  unfolding order_by_desc
  order_by_desc-Descending [] = tt
  order_by_desc-Descending (x ∷ xs) =
      insert_desc-Descending x (order_by_desc key xs) (order_by_desc-Descending xs)

-- The rows that are an owner's and not deleted, in some order, the newest change first.
pub record IsListing (db : Db) (owner_id : ℕ) (rags : List RagSet) : Type 0 where
  pub newest_first : Descending (λ r. r.updated_at) rags
  pub alive : Perm rags (filter (λ r. r.owner_id == owner_id && is_none r.deleted_at) db.rag_sets)

pub list_rags-IsListing : (db : Db) (owner_id : ℕ) → IsListing db owner_id (list_rags db owner_id)
unfolding list_rags
list_rags-IsListing db owner_id = record {
  newest_first = order_by_desc-Descending (λ (r : RagSet). r.updated_at) _;
  alive = order_by_desc-Perm (λ (r : RagSet). r.updated_at) _;
}
