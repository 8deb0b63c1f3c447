-- ===== src/Migrations/Origins.antt =====
-- alembic/versions and app/db/models.py: the checks of the migrated tables, on the rows that the
-- service writes.
use rag_ingestion_service.Prelude.{
  contains, All, Bool, List, Text, [], arith, codes, false, nat_eq, not, option_eq, refl, some,
  text_eq, true, ℕ, ◌+◌, ◌∷◌, ◌≡◌,
}
use rag_ingestion_service.Prelude.Filter.{any}
use rag_ingestion_service.Models.{
  BatchKind, RagSet, ImportBatch, Document, DocumentStatus, Origin, rag_checks, archive, s3,
  pending, processing, success, failed, from_upload, from_archive, from_s3, from_bucket,
}
use rag_ingestion_service.Storage.{RemoteObject}
use rag_ingestion_service.Api.Remote.{remote_documents}
use rag_ingestion_service.Migrations.{Schema, empty_schema, run}
use rag_ingestion_service.Migrations.Versions.{rag_sets, import_batches, documents, ingest_jobs}
use rag_ingestion_service.Migrations.Undo.{upgrade, upgrade-Runs, migrated}
use rag_ingestion_service.Migrations.Reverse.{run-Runs}
use rag_ingestion_service.Migrations.Rows.{
  Row, word, kind_word, origin_word, status_word, admits, all_hold, holds, cell, rag_row, batch_row,
  document_row,
}

abbrev pub is_from_bucket : Origin → Bool
is_from_bucket from_bucket = true
is_from_bucket _ = false

pub upgrade_empty : run upgrade empty_schema ≡ some (migrated empty_schema)
unfolding any
upgrade_empty = run-Runs (
    upgrade-Runs empty_schema (record {
      no_rag_sets = refl;
      no_import_batches = refl;
      no_documents = refl;
      no_ingest_jobs = refl;
      no_owner_alive = refl;
      no_owner_name = refl;
      no_batches_rag = refl;
      no_rag_status = refl;
      no_jobs_document = refl;
    }))

migrated_empty : (s : Schema) → run upgrade empty_schema ≡ some s → migrated empty_schema ≡ s
migrated_empty s h = let up = upgrade_empty in cc

admits-rag :
    (rag : RagSet)
    → admits (migrated empty_schema).tables (codes "rag_sets") (rag_row rag) ≡ rag_checks rag
unfolding admits all_hold holds cell rag_sets import_batches documents ingest_jobs text_eq
admits-rag rag = ground arith

admits-kind :
    (kind : BatchKind)
    → admits
        (migrated empty_schema).tables
        (codes "import_batches")
        ((codes "kind", word (kind_word kind)) ∷ [])
      ≡ true
unfolding admits rag_sets import_batches documents ingest_jobs text_eq
admits-kind archive = refl
admits-kind s3 = refl

abbrev words : Origin → DocumentStatus → Row
words origin status =
    (codes "origin", word (origin_word origin)) ∷ (codes "status", word (status_word status)) ∷ []

origin_known :
    (origin : Origin)
    → contains (codes "upload" ∷ codes "archive" ∷ codes "s3" ∷ []) (origin_word origin)
      ≡ not (is_from_bucket origin)
unfolding text_eq
origin_known from_upload = refl
origin_known from_archive = refl
origin_known from_s3 = refl
origin_known from_bucket = refl

status_known :
    (status : DocumentStatus)
    → contains
        (codes "pending" ∷ codes "processing" ∷ codes "success" ∷ codes "failed" ∷ [])
        (status_word status)
      ≡ true
unfolding text_eq
status_known pending = refl
status_known processing = refl
status_known success = refl
status_known failed = refl

admits-origin :
    (origin : Origin) (status : DocumentStatus)
    → admits (migrated empty_schema).tables (codes "documents") (words origin status)
      ≡ not (is_from_bucket origin)
unfolding admits rag_sets import_batches documents ingest_jobs text_eq
admits-origin origin status = ground (arith, origin_known origin, status_known status)

-- In a database that both migrations made from an empty one, the checks of a set are those of
-- the model, every kind of batch passes, and a document passes exactly if it does not come
-- from a bucket: the check on `origin` lacks that word.
pub checks-migrated :
    (s : Schema)
    → run upgrade empty_schema ≡ some s
    → ((rag : RagSet) → admits s.tables (codes "rag_sets") (rag_row rag) ≡ rag_checks rag)
      × ((batch : ImportBatch) → admits s.tables (codes "import_batches") (batch_row batch) ≡ true)
      × ((d : Document)
          → admits s.tables (codes "documents") (document_row d) ≡ not (is_from_bucket d.origin))
checks-migrated s h =
    rw (← migrated_empty s h)
      (admits-rag, λ batch. admits-kind batch.kind, λ d. admits-origin d.origin d.status)

-- In a database that both migrations made from an empty one, the checks refuse every document that the
-- import of objects of a bucket writes.
pub remote_documents-refused :
    (s : Schema)
    → run upgrade empty_schema ≡ some s
    → (digest : Text → Text) (now id rag_id : ℕ) (bucket : Text) (objects : List RemoteObject)
    → All
        (λ (d : Document). admits s.tables (codes "documents") (document_row d) ≡ false)
        (remote_documents digest now id rag_id bucket objects)
unfolding remote_documents
remote_documents-refused s h digest now id rag_id bucket [] = tt
remote_documents-refused s h digest now id rag_id bucket (obj ∷ objects) = (
  rw (← migrated_empty s h) (admits-origin from_bucket pending),
  remote_documents-refused s h digest now (id + 1) rag_id bucket objects,
)
