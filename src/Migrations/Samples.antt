-- ===== src/Migrations/Samples.antt =====
-- Examples for alembic/versions.
use rag_ingestion_service.Prelude.{
  All, List, [], codes, false, nat_eq, not, option_eq, refl, some, text_eq, true, ◌∷◌, ◌≡◌,
}
use rag_ingestion_service.Prelude.Filter.{any}
use rag_ingestion_service.Migrations.{Schema, Table, empty_schema, references, all_there, run}
use rag_ingestion_service.Migrations.Undo.{upgrade, downgrade, migrated, IsApart, downgrade-upgrade}
use rag_ingestion_service.Migrations.Closed.{IsClosed}
use rag_ingestion_service.Migrations.Origins.{
  upgrade_empty, checks-migrated, remote_documents-refused, is_from_bucket,
}
use rag_ingestion_service.Migrations.Rows.{admits, rag_row, batch_row, document_row}
use rag_ingestion_service.Models.{RagSet, ImportBatch, Document, rag_checks}
use rag_ingestion_service.Storage.{RemoteObject}
use rag_ingestion_service.Api.Remote.{remote_documents}

-- A schema with a table of another program.
abbrev versions : Table
versions = record { name = codes "alembic_version"; columns = []; constraints = [] }

abbrev shared : Schema
shared = record { tables = versions ∷ []; indexes = [] }

abbrev shared-IsApart : IsApart shared
unfolding any text_eq
shared-IsApart = record {
  no_rag_sets = refl;
  no_import_batches = refl;
  no_documents = refl;
  no_ingest_jobs = refl;
  no_owner_alive = refl;
  no_owner_name = refl;
  no_batches_rag = refl;
  no_rag_status = refl;
  no_jobs_document = refl;
}

shared-IsClosed : IsClosed shared
unfolding references all_there
shared-IsClosed = record { keys = (refl, tt); homes = tt }

downgrade-upgrade_example :
    (s' : Schema) × (run upgrade shared ≡ some s') × (run downgrade s' ≡ some shared)
downgrade-upgrade_example = downgrade-upgrade shared shared-IsClosed shared-IsApart

checks-migrated_example :
    ((rag : RagSet)
      → admits (migrated empty_schema).tables (codes "rag_sets") (rag_row rag) ≡ rag_checks rag)
    × ((batch : ImportBatch)
        → admits (migrated empty_schema).tables (codes "import_batches") (batch_row batch) ≡ true)
    × ((d : Document)
        → admits (migrated empty_schema).tables (codes "documents") (document_row d)
          ≡ not (is_from_bucket d.origin))
checks-migrated_example = checks-migrated (migrated empty_schema) upgrade_empty

abbrev two_objects : List RemoteObject
two_objects =
    record { key = codes "a.md"; size = 3; etag = codes "e1" }
    ∷ record { key = codes "b.md"; size = 4; etag = codes "e2" }
    ∷ []

remote_documents-refused_example :
    All
      (λ (d : Document).
        admits (migrated empty_schema).tables (codes "documents") (document_row d) ≡ false)
      (remote_documents (λ t. t) 10 1 7 (codes "box") two_objects)
remote_documents-refused_example =
    remote_documents-refused (migrated empty_schema) upgrade_empty (λ t. t) 10 1 7 (codes "box")
      two_objects
