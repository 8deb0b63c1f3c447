-- ===== src/Migrations/Undo.antt =====
-- alembic/versions: what `downgrade` makes of the schema that `upgrade` made.
use rag_ingestion_service.Prelude.{
  codes, List, Text, [], arith, false, map, nat_eq, option_eq, refl, some, text_eq, true, ◌++◌, ◌∷◌,
  ◌≡◌,
}
use rag_ingestion_service.Prelude.Filter.{any}
use rag_ingestion_service.Migrations.{
  Column, Table, Index, Schema, Operation, create_table, create_index, add_column, has_table,
  has_index, references, all_there, put_column, is_column_of, run_operation, run,
}
use rag_ingestion_service.Migrations.Versions.{
  source_bucket, ix_rag_sets_owner_alive, uq_rag_sets_owner_name, ix_import_batches_rag,
  ix_documents_rag_status, ix_ingest_jobs_document, rag_sets, import_batches, documents,
  ingest_jobs, upgrade_tables, downgrade_tables, upgrade_source_bucket, downgrade_source_bucket,
}
use rag_ingestion_service.Migrations.Closed.{IsClosed}
use rag_ingestion_service.Migrations.Reverse.{
  Reverts, undo_table, undo_index, undo_column, nothing, and_first, Runs, done, then_run, run-Runs,
  reverted,
}

abbrev pub upgrade : List Operation
upgrade = upgrade_tables ++ upgrade_source_bucket

abbrev pub downgrade : List Operation
downgrade = downgrade_source_bucket ++ downgrade_tables

upgrade-Reverts : Reverts upgrade downgrade
unfolding upgrade_tables upgrade_source_bucket downgrade_tables downgrade_source_bucket rag_sets
    import_batches documents ingest_jobs
upgrade-Reverts = and_first (undo_table _) (
    and_first (undo_index _) (
      and_first (undo_index _) (
        and_first (undo_table _) (
          and_first (undo_index _) (
            and_first (undo_table _) (
              and_first (undo_index _) (
                and_first (undo_table _)
                  (and_first (undo_index _) (and_first (undo_column _ _) nothing)))))))))

-- None of the tables and indexes of the service is there.
pub record IsApart (s : Schema) : Type 0 where
  pub no_rag_sets : has_table (codes "rag_sets") s.tables ≡ false
  pub no_import_batches : has_table (codes "import_batches") s.tables ≡ false
  pub no_documents : has_table (codes "documents") s.tables ≡ false
  pub no_ingest_jobs : has_table (codes "ingest_jobs") s.tables ≡ false
  pub no_owner_alive : has_index (codes "ix_rag_sets_owner_alive") s.indexes ≡ false
  pub no_owner_name : has_index (codes "uq_rag_sets_owner_name") s.indexes ≡ false
  pub no_batches_rag : has_index (codes "ix_import_batches_rag") s.indexes ≡ false
  pub no_rag_status : has_index (codes "ix_documents_rag_status") s.indexes ≡ false
  pub no_jobs_document : has_index (codes "ix_ingest_jobs_document") s.indexes ≡ false

no_column :
    (table name : Text) (ts : List Table)
    → has_table table ts ≡ false
    → any (is_column_of table name) ts ≡ false
unfolding any
no_column table name [] h = refl
no_column table name (t ∷ ts) h = ground (arith, no_column table name ts)

-- The tables and indexes of the service in front of those of `s`.
abbrev pub migrated : Schema → Schema
migrated s = record {
  tables =
      ingest_jobs
      ∷ put_column (codes "documents") source_bucket documents
      ∷ import_batches
      ∷ rag_sets
      ∷ map (put_column (codes "documents") source_bucket) s.tables;
  indexes =
      ix_ingest_jobs_document ∷ ix_documents_rag_status ∷ ix_import_batches_rag
      ∷ uq_rag_sets_owner_name ∷ ix_rag_sets_owner_alive ∷ s.indexes;
}

table_made :
    (s : Schema) (t : Table)
    → has_table t.name s.tables ≡ false
    → all_there (t ∷ s.tables) (references t.constraints) ≡ true
    → run_operation (create_table t) s ≡ some (record s { tables = t ∷ s.tables })
unfolding run_operation
table_made s t fresh housed = rw (fresh, housed)

index_made :
    (s : Schema) (i : Index)
    → has_index i.name s.indexes ≡ false
    → has_table i.table s.tables ≡ true
    → run_operation (create_index i) s ≡ some (record s { indexes = i ∷ s.indexes })
unfolding run_operation
index_made s i fresh housed = rw (fresh, housed)

column_made :
    (s : Schema) (table : Text) (c : Column)
    → has_table table s.tables ≡ true
    → any (is_column_of table c.name) s.tables ≡ false
    → run_operation (add_column table c) s
      ≡ some (record s { tables = map (put_column table c) s.tables })
unfolding run_operation
column_made s table c housed fresh = rw (housed, fresh)

pub upgrade-Runs : (s : Schema) → IsApart s → Runs upgrade s (migrated s)
unfolding any references all_there upgrade_tables upgrade_source_bucket rag_sets import_batches
    documents ingest_jobs text_eq
upgrade-Runs s apart = then_run (table_made s rag_sets apart.no_rag_sets refl) (
    then_run (index_made _ ix_rag_sets_owner_alive apart.no_owner_alive refl) (
      then_run (index_made _ uq_rag_sets_owner_name apart.no_owner_name refl) (
        then_run (table_made _ import_batches apart.no_import_batches refl) (
          then_run (index_made _ ix_import_batches_rag apart.no_batches_rag refl) (
            then_run (table_made _ documents apart.no_documents refl) (
              then_run (index_made _ ix_documents_rag_status apart.no_rag_status refl) (
                then_run (table_made _ ingest_jobs apart.no_ingest_jobs refl) (
                  then_run (index_made _ ix_ingest_jobs_document apart.no_jobs_document refl) (
                    then_run
                      (column_made _ (codes "documents") source_bucket refl (
                        no_column (codes "documents") (codes "source_bucket") s.tables
                          apart.no_documents))
                      (done _))))))))))

-- In a schema that has none of the tables and indexes of the service, and whose own keys and
-- indexes name tables that are there, both migrations run, and their downgrades take everything
-- back: the schema is the old one.
pub downgrade-upgrade :
    (s : Schema)
    → IsClosed s
    → IsApart s
    → (s' : Schema) × (run upgrade s ≡ some s') × (run downgrade s' ≡ some s)
downgrade-upgrade s closed apart =
    let up = run-Runs (upgrade-Runs s apart) in
    (migrated s, up, reverted s (migrated s) upgrade-Reverts closed up)
