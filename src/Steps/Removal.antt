-- ===== src/Steps/Removal.antt =====
-- app/api/rags.py and app/tasks/jobs.py: what the statements that remove a set keep of the tables,
-- its deletion and its purge keep.
use rag_ingestion_service.Storage.{delete, delete_prefix}
use rag_ingestion_service.Prelude.{slash, [], nat_eq, option_eq, text_eq, ℕ, ◌++◌, ◌∷◌}
use rag_ingestion_service.World.{on_index, World, on_store}
use rag_ingestion_service.Search
use rag_ingestion_service.Jobs.{purge_rag, Worker}
use rag_ingestion_service.Exec.{Keeps, >>=-Keeps}
use rag_ingestion_service.Models.{Db}
use rag_ingestion_service.Api
use rag_ingestion_service.Api.{UploadFile, owned}
use rag_ingestion_service.Steps.Jobs.{Holds}
use rag_ingestion_service.Steps.Handlers.{owned-Keeps}
use rag_ingestion_service.Models.Stable.{KeepsRows, KeepsRemovals}

module _ {S I : Type 0} (env : Worker S I) (P : Db → Type 0) (rows : KeepsRows P)
    (removals : KeepsRemovals P) where
  open env use {settings, digest, render}

  abbrev Kept : World S I → Type 0
  Kept = Holds env P rows

  pub purge_rag-Keeps : (rag_id : ℕ) → Keeps Kept (purge_rag env rag_id)
  unfolding purge_rag
  purge_rag-Keeps rag_id =
      >>=-Keeps Kept
        (on_index (Search.delete_rag env.digest env.client env.settings (render rag_id))) _
        (λ s h. h)
        (λ deleted.
          >>=-Keeps Kept
            (on_store
              (delete_prefix env.s3 env.settings.s3_bucket_docs (render rag_id ++ (slash ∷ []))))
            _ (λ s h. h)
            (λ _.
              >>=-Keeps Kept (on_store (delete env.s3 env.settings.s3_bucket_icons (render rag_id)))
                _ (λ s h. h) (λ _ s h. removals.delete_rag_row rag_id s.db h)))

  pub delete_rag-Keeps : (rag_id user_id : ℕ) → Keeps Kept (Api.delete_rag env rag_id user_id)
  unfolding Api.delete_rag
  delete_rag-Keeps rag_id user_id =
      >>=-Keeps Kept (owned env rag_id user_id) _ (owned-Keeps env P rows rag_id user_id)
        (λ rag w h. removals.soft_delete_rag w.now rag_id w.db h)
