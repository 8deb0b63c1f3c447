-- ===== src/Repo.antt =====
-- app/db/repo.py: the queries of the control plane, over its tables as lists.
pub mod Counts
pub mod Isolation
pub mod Lookups
pub mod Order
pub mod Views
mod Samples
use rag_ingestion_service.Prelude.{
  Bool, List, Option, Text, [], contains, false, if◌then◌else◌, is_empty, leb, length, ltb, map,
  nat_eq, none, not, option_eq, some, text_eq, true, ℕ, ◌&&◌, ◌==◌, ◌∷◌,
}
use rag_ingestion_service.Prelude.Filter.{filter, any, count, sum_of}
use rag_ingestion_service.Prelude.Result.{Result, ok, err}
use rag_ingestion_service.Errors.{Exception, unexpected}
use rag_ingestion_service.Models.{
  RagSet, ImportBatch, Document, IngestJob, Db, DocumentStatus, BatchStatus, pending, processing,
  success, failed, is_alive, has_content, insert_job,
}

pub record DocumentCounts : Type 0 where
  pub total : ℕ
  pub ready : ℕ
  pub failed : ℕ
  pub pending : ℕ
  pub chunks : ℕ

abbrev pub no_counts : DocumentCounts
no_counts = record { total = 0; ready = 0; failed = 0; pending = 0; chunks = 0 }

unfoldable pub has_pending : DocumentCounts → Bool
has_pending c = ltb 0 c.pending

pub data RagStatus : Type 0 where
  empty ready ingesting all_failed : RagStatus

unfoldable pub status_of : DocumentCounts → RagStatus
status_of c =
    if c.total == 0
    then empty
    else if ltb 0 c.ready
    then ready
    else if ltb 0 c.pending
    then ingesting
    else all_failed

abbrev pub is_success : DocumentStatus → Bool
is_success success = true
is_success _ = false

abbrev pub is_failed : DocumentStatus → Bool
is_failed failed = true
is_failed _ = false

-- `status IN ('pending', 'processing')`
abbrev pub is_pending : DocumentStatus → Bool
is_pending pending = true
is_pending processing = true
is_pending _ = false

abbrev pub documents_of : ℕ → List Document → List Document
documents_of rag_id = filter (λ d. d.rag_id == rag_id)

-- The aggregates of one group of rows.
unfoldable pub aggregate : List Document → DocumentCounts
aggregate rows = record {
  total = length rows;
  ready = count (λ d. is_success d.status) rows;
  failed = count (λ d. is_failed d.status) rows;
  pending = count (λ d. is_pending d.status) rows;
  chunks = sum_of (λ d. d.chunks_count) rows;
}

unfoldable pub counts_for : Db → ℕ → DocumentCounts
counts_for db rag_id = aggregate (documents_of rag_id db.documents)

-- The first of each of several equal numbers.
distinct_ids : List ℕ → List ℕ
distinct_ids [] = []
distinct_ids (x ∷ xs) = let rest = distinct_ids xs in x ∷ filter (λ y. not (y == x)) rest

-- `GROUP BY rag_id`: a row for each value of the column.
grouped : List Document → List (ℕ × DocumentCounts)
unfolding distinct_ids
grouped rows =
    map (λ (rag_id : ℕ). (rag_id, aggregate (documents_of rag_id rows)))
      (distinct_ids (map (λ d. d.rag_id) rows))

-- `found.get(rid, DocumentCounts())`
unfoldable pub get_counts : ℕ → List (ℕ × DocumentCounts) → DocumentCounts
get_counts rid [] = no_counts
get_counts rid ((key, counts) ∷ found) = if key == rid then counts else get_counts rid found

unfoldable pub counts_for_many : Db → List ℕ → List (ℕ × DocumentCounts)
unfolding grouped
counts_for_many db rag_ids =
    let found = grouped (filter (λ d. contains rag_ids d.rag_id) db.documents) in
    if is_empty rag_ids then [] else map (λ (rid : ℕ). (rid, get_counts rid found)) rag_ids

-- `scalar_one_or_none` raises where there are several rows.
abbrev pub scalar_one_or_none {ℓ} : {A : Type ℓ} → List A → Option A
scalar_one_or_none [] = none
scalar_one_or_none (x ∷ xs) = some x

abbrev pub is_owned : ℕ → ℕ → RagSet → Bool
is_owned rag_id owner_id r = r.id == rag_id && r.owner_id == owner_id && is_alive r

unfoldable pub get_rag : Db → ℕ → ℕ → Option RagSet
get_rag db rag_id owner_id = scalar_one_or_none (filter (is_owned rag_id owner_id) db.rag_sets)

module _ {A : Type 0} (key : A → ℕ) where
  insert_desc : A → List A → List A
  insert_desc x [] = x ∷ []
  insert_desc x (y ∷ ys) = if leb (key y) (key x) then x ∷ y ∷ ys else y ∷ insert_desc x ys

  -- `ORDER BY key DESC`; Postgres leaves the order of equal keys open.
  unfoldable pub order_by_desc : List A → List A
  unfolding insert_desc
  order_by_desc [] = []
  order_by_desc (x ∷ xs) = insert_desc x (order_by_desc xs)

abbrev pub is_alive_of : ℕ → RagSet → Bool
is_alive_of owner_id r = r.owner_id == owner_id && is_alive r

unfoldable pub list_rags : Db → ℕ → List RagSet
list_rags db owner_id =
    order_by_desc (λ r. r.updated_at) (filter (is_alive_of owner_id) db.rag_sets)

unfoldable pub count_rags : Db → ℕ → ℕ
count_rags db owner_id = count (is_alive_of owner_id) db.rag_sets

unfoldable pub soft_delete_rag : ℕ → ℕ → Db → Db
soft_delete_rag now rag_id db = record db {
  rag_sets =
      map (λ r. if r.id == rag_id then record r { deleted_at = some now; updated_at = now } else r)
        db.rag_sets;
}

abbrev pub is_document : ℕ → ℕ → Document → Bool
is_document rag_id document_id d = d.id == document_id && d.rag_id == rag_id

unfoldable pub get_document : Db → ℕ → ℕ → Option Document
get_document db rag_id document_id =
    scalar_one_or_none (filter (is_document rag_id document_id) db.documents)

unfoldable pub find_by_hash : Db → ℕ → Text → Option Document
find_by_hash db rag_id content_hash =
    scalar_one_or_none (filter (has_content rag_id content_hash) db.documents)

unfoldable pub list_documents : Db → ℕ → List Document
list_documents db rag_id = order_by_desc (λ d. d.created_at) (documents_of rag_id db.documents)

unfoldable pub total_bytes : Db → ℕ → ℕ
total_bytes db rag_id = sum_of (λ d. d.size_bytes) (documents_of rag_id db.documents)

-- The row with the values of `mark_document`.
abbrev pub marked : ℕ → DocumentStatus → Option Text → Option ℕ → Document → Document
marked now status error none d = record d { status = status; error = error; updated_at = now }
marked now status error (some chunks) d = record d {
  status = status;
  error = error;
  chunks_count = chunks;
  updated_at = now;
}

unfoldable pub mark_document : ℕ → ℕ → DocumentStatus → Option Text → Option ℕ → Db → Db
mark_document now document_id status error chunks_count db = record db {
  documents =
      map (λ d. if d.id == document_id then marked now status error chunks_count d else d)
        db.documents;
}

unfoldable pub get_batch : Db → ℕ → ℕ → Option ImportBatch
get_batch db batch_id rag_id =
    scalar_one_or_none (filter (λ b. b.id == batch_id && b.rag_id == rag_id) db.import_batches)

unfoldable pub finish_batch : ℕ → ℕ → BatchStatus → ℕ → ℕ → ℕ → Option Text → Db → Db
finish_batch now batch_id status created skipped total error db = record db {
  import_batches =
      map
        (λ b.
          if b.id == batch_id
          then record b {
            status = status;
            documents_created = created;
            documents_skipped = skipped;
            documents_total = total;
            error = error;
            finished_at = some now;
          }
          else b)
        db.import_batches;
}

unfoldable pub record_job : ℕ → ℕ → ℕ → ℕ → Db → Result Exception Db
record_job now job_id document_id rq_job_id = insert_job (record {
  id = job_id;
  document_id = document_id;
  rq_job_id = rq_job_id;
  attempts = 0;
  started_at = none;
  finished_at = none;
  error = none;
  created_at = now;
})

-- The set of the document is alive and belongs to the owner.
abbrev pub is_visible : Db → ℕ → Document → Bool
is_visible db owner_id d = any (is_owned d.rag_id owner_id) db.rag_sets

unfoldable pub documents_by_ids : Db → List ℕ → ℕ → List Document
documents_by_ids db document_ids owner_id =
    if is_empty document_ids
    then []
    else filter (λ d. contains document_ids d.id && is_visible db owner_id d) db.documents

unfoldable pub existing_hashes : Db → ℕ → List Text
existing_hashes db rag_id = map (λ d. d.content_hash) (documents_of rag_id db.documents)
