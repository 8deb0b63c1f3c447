-- ===== src/Jobs/Purge.antt =====
-- app/tasks/jobs.py: what `purge_document` leaves alone.
use rag_ingestion_service.Prelude.{Text, nat_eq, option_eq, refl, some, text_eq, ◌≡◌}
use rag_ingestion_service.Exec.{pure, >>=-Keeps}
use rag_ingestion_service.Search
use rag_ingestion_service.World.{World, on_index}
use rag_ingestion_service.Jobs.{Worker, purge_document}

module _ {S I : Type 0} (env : Worker S I) where
  -- Purging a document that refers to an object of a foreign bucket changes nothing in the object
  -- store and the tables, whether the index answers or raises.
  pub purge_document_foreign :
      (rag_id document_id storage_key bucket : Text) (w : World S I)
      → let w' = (purge_document env rag_id document_id storage_key (some bucket) w).1 in
        (w'.store ≡ w.store) × (w'.db ≡ w.db)
  unfolding purge_document
  purge_document_foreign rag_id document_id storage_key bucket w =
      >>=-Keeps (λ (w' : World S I). (w'.store ≡ w.store) × (w'.db ≡ w.db))
        (on_index (Search.delete_document env.digest env.client env.settings rag_id document_id))
        pure (λ s h. h) (λ deleted s h. h) w (refl, refl)
