-- ===== src/Models.antt =====
-- app/db/models.py: the rows of the control plane, its tables as lists in insertion order, and
-- the constraints that Postgres checks when a row is written. Identifiers and times are numbers;
-- `temperature` and `score_threshold`, floats in the source, are counted in thousandths.
pub mod Integrity
pub mod Stable
pub mod Writes
pub mod Consistency
pub mod Names
use rag_ingestion_service.Prelude.{
  Bool, List, Option, Text, [], false, if◌then◌else◌, leb, map, nat_eq, none, not, option_eq, some,
  text_eq, true, ℕ, ◌&&◌, ◌++◌, ◌==◌, ◌||◌, ◌∷◌,
}
use rag_ingestion_service.Prelude.Filter.{filter, any}
use rag_ingestion_service.Prelude.Result.{Result, ok, err}
use rag_ingestion_service.Errors.{Exception, integrity_error}

pub record RagSet : Type 0 where
  pub id : ℕ
  pub owner_id : ℕ
  pub name : Text
  pub description : Option Text
  pub prompt : Option Text
  pub temperature : ℕ
  pub top_k : ℕ
  pub score_threshold : ℕ
  pub icon_key : Option Text
  pub created_at : ℕ
  pub updated_at : ℕ
  pub deleted_at : Option ℕ

pub data BatchKind : Type 0 where
  archive s3 : BatchKind

pub data BatchStatus : Type 0 where
  batch_pending batch_processing batch_success batch_rejected batch_failed : BatchStatus

pub record ImportBatch : Type 0 where
  pub id : ℕ
  pub rag_id : ℕ
  pub kind : BatchKind
  pub status : BatchStatus
  pub documents_total : ℕ
  pub documents_created : ℕ
  pub documents_skipped : ℕ
  pub error : Option Text
  pub created_at : ℕ
  pub finished_at : Option ℕ

pub data DocumentStatus : Type 0 where
  pending processing success failed : DocumentStatus

pub data Origin : Type 0 where
  from_upload from_archive from_s3 from_bucket : Origin

pub record Document : Type 0 where
  pub id : ℕ
  pub rag_id : ℕ
  pub filename : Text
  pub size_bytes : ℕ
  pub content_hash : Text
  pub storage_key : Text
  pub source_bucket : Option Text
  pub origin : Origin
  pub origin_ref : Option ℕ
  pub status : DocumentStatus
  pub error : Option Text
  pub chunks_count : ℕ
  pub created_at : ℕ
  pub updated_at : ℕ

pub record IngestJob : Type 0 where
  pub id : ℕ
  pub document_id : ℕ
  pub rq_job_id : ℕ
  pub attempts : ℕ
  pub started_at : Option ℕ
  pub finished_at : Option ℕ
  pub error : Option Text
  pub created_at : ℕ

pub record Db : Type 0 where
  pub rag_sets : List RagSet
  pub import_batches : List ImportBatch
  pub documents : List Document
  pub ingest_jobs : List IngestJob

abbrev pub empty_db : Db
empty_db = record { rag_sets = []; import_batches = []; documents = []; ingest_jobs = [] }

abbrev pub is_none {ℓ} : {A : Type ℓ} → Option A → Bool
is_none none = true
is_none (some a) = false

abbrev pub is_alive : RagSet → Bool
is_alive rag = is_none rag.deleted_at

-- `ck_rag_temperature`, `ck_rag_top_k` and `ck_rag_score_threshold`
abbrev pub rag_checks : RagSet → Bool
rag_checks rag =
    leb rag.temperature 1000 && leb 1 rag.top_k && leb rag.top_k 10 && leb rag.score_threshold 1000

-- `fold` is Postgres' `lower`, under the collation of the database.
module _ (fold : Text → Text) where
  -- `uq_rag_sets_owner_name`: the rows that clash are alive and have the owner and the name.
  abbrev pub same_name : RagSet → RagSet → Bool
  same_name rag other =
      is_alive rag
      && is_alive other
      && other.owner_id == rag.owner_id
      && fold other.name == fold rag.name

  unfoldable pub insert_rag : RagSet → Db → Result Exception Db
  insert_rag rag db =
      if not (rag_checks rag)
        || any (λ r. r.id == rag.id) db.rag_sets
        || any (same_name rag) db.rag_sets
      then err integrity_error
      else ok (record db { rag_sets = db.rag_sets ++ rag ∷ [] })

  -- The row with the same key is written anew.
  unfoldable pub update_rag_row : RagSet → Db → Result Exception Db
  update_rag_row rag db =
      if not (rag_checks rag) || any (λ r. not (r.id == rag.id) && same_name rag r) db.rag_sets
      then err integrity_error
      else ok (record db { rag_sets = map (λ r. if r.id == rag.id then rag else r) db.rag_sets })

-- The columns of `uq_documents_rag_hash`.
abbrev pub has_content : ℕ → Text → Document → Bool
has_content rag_id hash d = d.rag_id == rag_id && d.content_hash == hash

unfoldable pub insert_document : Document → Db → Result Exception Db
insert_document doc db =
    if any (λ d. d.id == doc.id) db.documents
      || any (has_content doc.rag_id doc.content_hash) db.documents
      || not (any (λ r. r.id == doc.rag_id) db.rag_sets)
    then err integrity_error
    else ok (record db { documents = db.documents ++ doc ∷ [] })

unfoldable pub insert_batch : ImportBatch → Db → Result Exception Db
insert_batch batch db =
    if any (λ b. b.id == batch.id) db.import_batches
      || not (any (λ r. r.id == batch.rag_id) db.rag_sets)
    then err integrity_error
    else ok (record db { import_batches = db.import_batches ++ batch ∷ [] })

unfoldable pub insert_job : IngestJob → Db → Result Exception Db
insert_job job db =
    if any (λ j. j.id == job.id) db.ingest_jobs
      || not (any (λ d. d.id == job.document_id) db.documents)
    then err integrity_error
    else ok (record db { ingest_jobs = db.ingest_jobs ++ job ∷ [] })

-- `ON DELETE CASCADE` takes the jobs of the document along.
unfoldable pub delete_document_row : ℕ → Db → Db
delete_document_row document_id db = record db {
  documents = filter (λ d. not (d.id == document_id)) db.documents;
  ingest_jobs = filter (λ j. not (j.document_id == document_id)) db.ingest_jobs;
}

-- The cascades take the batches of the set, its documents and their jobs along.
unfoldable pub delete_rag_row : ℕ → Db → Db
delete_rag_row rag_id db =
    let kept = filter (λ d. not (d.rag_id == rag_id)) db.documents in
    record {
      rag_sets = filter (λ r. not (r.id == rag_id)) db.rag_sets;
      import_batches = filter (λ b. not (b.rag_id == rag_id)) db.import_batches;
      documents = kept;
      ingest_jobs = filter (λ j. any (λ d. d.id == j.document_id) kept) db.ingest_jobs;
    }
