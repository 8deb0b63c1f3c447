-- ===== src/Steps/Invariant.antt =====
-- The tables in every state that the service can reach.
use rag_ingestion_service.Prelude.{Option, Text, arith, nat_eq, option_eq, text_eq}
use rag_ingestion_service.Models.{Db, empty_db}
use rag_ingestion_service.Models.Integrity.{IsConsistent}
use rag_ingestion_service.Models.Names.{HasUniqueNames, IsNamed, IsNamed-IsStable}
use rag_ingestion_service.Models.Stable.{IsStable}
use rag_ingestion_service.Models.Consistency.{IsConsistent-IsStable}
use rag_ingestion_service.Prelude.Filter.{count}
use rag_ingestion_service.World
use rag_ingestion_service.World.{World, Task}
use rag_ingestion_service.Jobs.{Worker}
use rag_ingestion_service.Steps.{
  Request, post_rag, post_from_bucket, patch_rag, put_rag_icon, remove_rag, post_documents,
  post_documents_from_bucket, remove_one_document, post_archive, post_staging_import, handle,
  run_task, Step, request, ingest, maintain, elapse, Reachable, start, and_then,
}
use rag_ingestion_service.Steps.Jobs.{ingest_document-Keeps, purge_document-Keeps}
use rag_ingestion_service.Steps.Imports.{expand_archive-Keeps, import_s3_prefix-Keeps}
use rag_ingestion_service.Steps.Handlers.{
  upload_documents-Keeps, remove_document-Keeps, import_archive-Keeps, import_from_staging-Keeps,
}
use rag_ingestion_service.Steps.Remote.{add_documents_from_bucket-Keeps}
use rag_ingestion_service.Steps.Sets.{
  create_rag-Keeps, create_from_bucket-Keeps, update_rag-Keeps, put_icon-Keeps,
}
use rag_ingestion_service.Steps.Removal.{delete_rag-Keeps, purge_rag-Keeps}

module _ {S I : Type 0} (env : Worker S I) (fold : Text → Text)
    (normalize : Text → Option Text) where
  module _ (P : Db → Type 0) (stable : IsStable fold P) where
    handle-keeps : (r : Request) (w : World S I) → P w.db → P (handle env fold normalize r w).db
    unfolding handle
    handle-keeps (post_rag payload user_id) = create_rag-Keeps env fold P stable payload user_id
    handle-keeps (post_from_bucket payload user_id) =
        create_from_bucket-Keeps env fold P stable payload user_id
    handle-keeps (patch_rag rag_id payload user_id) =
        update_rag-Keeps env fold P stable rag_id payload user_id
    handle-keeps (put_rag_icon rag_id file user_id) =
        put_icon-Keeps env fold P stable normalize rag_id file user_id
    handle-keeps (remove_rag rag_id user_id) =
        delete_rag-Keeps env P stable.rows stable.removals rag_id user_id
    handle-keeps (post_documents rag_id files user_id) =
        upload_documents-Keeps env P stable.rows rag_id files user_id
    handle-keeps (post_documents_from_bucket rag_id payload user_id) =
        add_documents_from_bucket-Keeps env P stable.rows rag_id payload user_id
    handle-keeps (remove_one_document rag_id document_id user_id) =
        remove_document-Keeps env P stable.rows rag_id document_id user_id
    handle-keeps (post_archive rag_id file user_id) =
        import_archive-Keeps env P stable.rows rag_id file user_id
    handle-keeps (post_staging_import rag_id prefix) =
        import_from_staging-Keeps env P stable.rows rag_id prefix

    run_task-keeps :
        (task : Task) (w : World S I) → P w.db → P (run_task env fold normalize task w).1.db
    unfolding run_task
    run_task-keeps (World.expand_archive batch_id staging_key) =
        expand_archive-Keeps env P stable.rows batch_id staging_key
    run_task-keeps (World.import_s3_prefix batch_id prefix) =
        import_s3_prefix-Keeps env P stable.rows batch_id prefix
    run_task-keeps (World.purge_rag rag_id) =
        purge_rag-Keeps env P stable.rows stable.removals rag_id
    run_task-keeps (World.purge_document rag_id document_id storage_key source_bucket) =
        purge_document-Keeps env P stable.rows (env.render rag_id) (env.render document_id)
          storage_key source_bucket

    pub step-keeps : {w w' : World S I} → Step env fold normalize w w' → P w.db → P w'.db
    step-keeps (request r w) = handle-keeps r w
    step-keeps (ingest document_id rest w e) =
        ingest_document-Keeps env P stable.rows document_id (record w { ingest_queue = rest })
    step-keeps (maintain task rest w e) =
        run_task-keeps task (record w { maintenance_queue = rest })
    step-keeps (elapse later store index w) = λ h. h

    -- What the statements keep holds in every state that is reached from one where it holds.
    reachable-keeps : {w : World S I} → P empty_db → Reachable env fold normalize w → P w.db
    reachable-keeps h (start w e) = rw e h
    reachable-keeps h (and_then before step) = step-keeps step (reachable-keeps h before)

  pub empty-IsConsistent : IsConsistent empty_db
  unfolding count
  empty-IsConsistent = record {
    rag_ids = λ i. ground arith;
    document_ids = λ i. ground arith;
    batch_ids = λ i. ground arith;
    job_ids = λ i. ground arith;
    contents = λ i h. ground arith;
    checks = tt;
    homes = tt;
    batch_homes = tt;
    job_homes = tt;
  }

  -- In every state that requests and jobs reach from empty tables, each run from its beginning to its
  -- end, in whatever order and whether or not they raise, the tables are consistent: the checks of the
  -- sets hold, the keys of sets, documents, batches and jobs are unique, a set holds a content once, and
  -- no document, batch or job is without its parent.
  pub reachable-IsConsistent : {w : World S I} → Reachable env fold normalize w → IsConsistent w.db
  reachable-IsConsistent =
      reachable-keeps IsConsistent (IsConsistent-IsStable fold) empty-IsConsistent

  -- In every state that requests and jobs reach from empty tables, in whatever order they run and
  -- whether or not they raise, no owner has two alive sets of one name, in whichever case the names are
  -- written.
  pub reachable-HasUniqueNames :
      {w : World S I} → Reachable env fold normalize w → HasUniqueNames fold w.db
  unfolding count
  reachable-HasUniqueNames before =
      (reachable-keeps (IsNamed fold) (IsNamed-IsStable fold)
        (empty-IsConsistent, λ owner_id name. ground arith) before).1
