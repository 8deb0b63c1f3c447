-- ===== src/Migrations/Versions.antt =====
-- alembic/versions: the operations of `upgrade` and `downgrade` of its two files. The ranges of
-- `temperature` and `score_threshold` are in thousandths.
use rag_ingestion_service.Migrations.{
  ColumnType, Column, Table, Index, Operation, uuid, text, float, integer, big_integer, date_time,
  string, in_range, one_of, cascade, set_null, check, primary_key, foreign_key, unique_columns,
  create_table, drop_table, create_index, drop_index, add_column, drop_column,
}
use rag_ingestion_service.Prelude.{
  Bool, List, Option, Text, [], codes, false, nat_eq, none, option_eq, some, text_eq, true, ◌∷◌,
}

abbrev column : Text → ColumnType → Option Text → Bool → Column
column name type server_default nullable = record {
  name = name;
  type = type;
  server_default = server_default;
  nullable = nullable;
}

abbrev index : Text → Text → List Text → Bool → Option Text → Index
index name table expressions unique condition = record {
  name = name;
  table = table;
  expressions = expressions;
  unique = unique;
  condition = condition;
}

unfoldable pub rag_sets : Table
rag_sets = record {
  name = codes "rag_sets";
  columns =
      column (codes "id") uuid none false
      ∷ column (codes "owner_id") uuid none false
      ∷ column (codes "name") (string 200) none false
      ∷ column (codes "description") text none true
      ∷ column (codes "prompt") text none true
      ∷ column (codes "temperature") float (some (codes "0.3")) false
      ∷ column (codes "top_k") integer (some (codes "5")) false
      ∷ column (codes "score_threshold") float (some (codes "0.0")) false
      ∷ column (codes "icon_key") (string 512) none true
      ∷ column (codes "created_at") date_time (some (codes "now()")) false
      ∷ column (codes "updated_at") date_time (some (codes "now()")) false
      ∷ column (codes "deleted_at") date_time none true
      ∷ [];
  constraints =
      check (in_range (codes "score_threshold") 0 1000) (codes "ck_rag_score_threshold")
      ∷ check (in_range (codes "temperature") 0 1000) (codes "ck_rag_temperature")
      ∷ check (in_range (codes "top_k") 1 10) (codes "ck_rag_top_k")
      ∷ primary_key (codes "id" ∷ [])
      ∷ [];
}

unfoldable pub import_batches : Table
import_batches = record {
  name = codes "import_batches";
  columns =
      column (codes "id") uuid none false
      ∷ column (codes "rag_id") uuid none false
      ∷ column (codes "kind") (string 16) none false
      ∷ column (codes "status") (string 16) (some (codes "'pending'")) false
      ∷ column (codes "documents_total") integer (some (codes "0")) false
      ∷ column (codes "documents_created") integer (some (codes "0")) false
      ∷ column (codes "documents_skipped") integer (some (codes "0")) false
      ∷ column (codes "error") text none true
      ∷ column (codes "created_at") date_time (some (codes "now()")) false
      ∷ column (codes "finished_at") date_time none true
      ∷ [];
  constraints =
      check (one_of (codes "kind") (codes "archive" ∷ codes "s3" ∷ [])) (codes "ck_batch_kind")
      ∷ foreign_key (codes "rag_id") (codes "rag_sets") cascade
      ∷ primary_key (codes "id" ∷ [])
      ∷ [];
}

unfoldable pub documents : Table
documents = record {
  name = codes "documents";
  columns =
      column (codes "id") uuid none false
      ∷ column (codes "rag_id") uuid none false
      ∷ column (codes "filename") (string 512) none false
      ∷ column (codes "size_bytes") big_integer none false
      ∷ column (codes "content_hash") (string 64) none false
      ∷ column (codes "storage_key") (string 1024) none false
      ∷ column (codes "origin") (string 16) (some (codes "'upload'")) false
      ∷ column (codes "origin_ref") uuid none true
      ∷ column (codes "status") (string 16) (some (codes "'pending'")) false
      ∷ column (codes "error") text none true
      ∷ column (codes "chunks_count") integer (some (codes "0")) false
      ∷ column (codes "created_at") date_time (some (codes "now()")) false
      ∷ column (codes "updated_at") date_time (some (codes "now()")) false
      ∷ [];
  constraints =
      check (one_of (codes "origin") (codes "upload" ∷ codes "archive" ∷ codes "s3" ∷ []))
        (codes "ck_document_origin")
      ∷ check
          (one_of (codes "status")
            (codes "pending" ∷ codes "processing" ∷ codes "success" ∷ codes "failed" ∷ []))
          (codes "ck_document_status")
      ∷ foreign_key (codes "origin_ref") (codes "import_batches") set_null
      ∷ foreign_key (codes "rag_id") (codes "rag_sets") cascade
      ∷ primary_key (codes "id" ∷ [])
      ∷ unique_columns (codes "rag_id" ∷ codes "content_hash" ∷ []) (codes "uq_documents_rag_hash")
      ∷ [];
}

unfoldable pub ingest_jobs : Table
ingest_jobs = record {
  name = codes "ingest_jobs";
  columns =
      column (codes "id") uuid none false
      ∷ column (codes "document_id") uuid none false
      ∷ column (codes "rq_job_id") (string 64) none false
      ∷ column (codes "attempts") integer (some (codes "0")) false
      ∷ column (codes "started_at") date_time none true
      ∷ column (codes "finished_at") date_time none true
      ∷ column (codes "error") text none true
      ∷ column (codes "created_at") date_time (some (codes "now()")) false
      ∷ [];
  constraints =
      foreign_key (codes "document_id") (codes "documents") cascade
      ∷ primary_key (codes "id" ∷ [])
      ∷ [];
}

abbrev pub ix_rag_sets_owner_alive : Index
ix_rag_sets_owner_alive =
    index (codes "ix_rag_sets_owner_alive") (codes "rag_sets") (codes "owner_id" ∷ []) false
      (some (codes "deleted_at IS NULL"))

abbrev pub uq_rag_sets_owner_name : Index
uq_rag_sets_owner_name =
    index (codes "uq_rag_sets_owner_name") (codes "rag_sets")
      (codes "owner_id" ∷ codes "lower(name)" ∷ []) true (some (codes "deleted_at IS NULL"))

abbrev pub ix_import_batches_rag : Index
ix_import_batches_rag =
    index (codes "ix_import_batches_rag") (codes "import_batches") (codes "rag_id" ∷ []) false none

abbrev pub ix_documents_rag_status : Index
ix_documents_rag_status =
    index (codes "ix_documents_rag_status") (codes "documents")
      (codes "rag_id" ∷ codes "status" ∷ []) false none

abbrev pub ix_ingest_jobs_document : Index
ix_ingest_jobs_document =
    index (codes "ix_ingest_jobs_document") (codes "ingest_jobs") (codes "document_id" ∷ []) false
      none

-- 26fbc5067215
unfoldable pub upgrade_tables : List Operation
unfolding rag_sets import_batches documents ingest_jobs
upgrade_tables =
    create_table rag_sets
    ∷ create_index ix_rag_sets_owner_alive
    ∷ create_index uq_rag_sets_owner_name
    ∷ create_table import_batches
    ∷ create_index ix_import_batches_rag
    ∷ create_table documents
    ∷ create_index ix_documents_rag_status
    ∷ create_table ingest_jobs
    ∷ create_index ix_ingest_jobs_document
    ∷ []

unfoldable pub downgrade_tables : List Operation
downgrade_tables =
    drop_index (codes "ix_ingest_jobs_document")
    ∷ drop_table (codes "ingest_jobs")
    ∷ drop_index (codes "ix_documents_rag_status")
    ∷ drop_table (codes "documents")
    ∷ drop_index (codes "ix_import_batches_rag")
    ∷ drop_table (codes "import_batches")
    ∷ drop_index (codes "uq_rag_sets_owner_name")
    ∷ drop_index (codes "ix_rag_sets_owner_alive")
    ∷ drop_table (codes "rag_sets")
    ∷ []

-- 557f3078bc28
abbrev pub source_bucket : Column
source_bucket = column (codes "source_bucket") (string 255) none true

unfoldable pub upgrade_source_bucket : List Operation
upgrade_source_bucket = add_column (codes "documents") source_bucket ∷ []

unfoldable pub downgrade_source_bucket : List Operation
downgrade_source_bucket = drop_column (codes "documents") (codes "source_bucket") ∷ []
