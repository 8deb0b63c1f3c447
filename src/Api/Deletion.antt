-- ===== src/Api/Deletion.antt =====
-- app/api/rags.py: `delete_rag`.
use rag_ingestion_service.Repo.Isolation.{get_rag-soft_delete_rag}
use rag_ingestion_service.Prelude.{
  refl, [], if◌then◌else◌, nat_eq, none, option_eq, some, text_eq, ℕ, ◌++◌, ◌==◌, ◌∷◌, ◌≡◌,
}
use rag_ingestion_service.Prelude.Result.{ok}
use rag_ingestion_service.Models.{RagSet}
use rag_ingestion_service.Repo
use rag_ingestion_service.Repo.{soft_delete_rag}
use rag_ingestion_service.World.{World, purge_rag}
use rag_ingestion_service.Jobs.{Worker}
use rag_ingestion_service.Api.{owned, delete_rag}

module _ {S I : Type 0} (env : Worker S I) where
  -- When the owner of a set deletes it, the handler returns, the set can no longer be reached by
  -- anyone while every other set is reached as before, its documents are still there, and the
  -- task that purges it is queued behind the others.
  pub delete_rag_lem :
      (rag_id user_id : ℕ) (rag : RagSet) (w : World S I)
      → Repo.get_rag w.db rag_id user_id ≡ some rag
      → let (r, w') = delete_rag env rag_id user_id w in
        (r ≡ ok tt)
        × ((other owner_id : ℕ)
            → Repo.get_rag w'.db other owner_id
              ≡ (if other == rag_id then none else Repo.get_rag w.db other owner_id))
        × (w'.db.documents ≡ w.db.documents)
        × (w'.maintenance_queue ≡ w.maintenance_queue ++ purge_rag rag_id ∷ [])
  unfolding delete_rag owned soft_delete_rag
  delete_rag_lem rag_id user_id rag w h =
      rw h (refl, get_rag-soft_delete_rag w.now rag_id w.db, refl, refl)
