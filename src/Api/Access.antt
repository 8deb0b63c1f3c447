-- ===== src/Api/Access.antt =====
-- app/api/rags.py: who can reach a set through the handlers.
use rag_ingestion_service.Prelude.{Text, List, nat_eq, none, option_eq, text_eq, ℕ, ◌≡◌}
use rag_ingestion_service.Prelude.Result.{err}
use rag_ingestion_service.Errors.{http_exception, rag_not_found}
use rag_ingestion_service.Exec.{Exec, ◌>>=◌}
use rag_ingestion_service.Models.{RagSet}
use rag_ingestion_service.Repo
use rag_ingestion_service.World.{World}
use rag_ingestion_service.Jobs.{Worker}
use rag_ingestion_service.Api.{
  UploadFile, owned, upload_documents, delete_rag, documents_of_rag, remove_document,
  import_archive, batch_of_rag,
}
use rag_ingestion_service.Api.Remote.{DocumentsFromBucketIn, add_documents_from_bucket}
use rag_ingestion_service.Api.Sets.{get_rag}
use rag_ingestion_service.Api.Updates.{RagUpdate, update_rag, get_icon}
use rag_ingestion_service.Api.Internal.{internal_rag}

module _ {S I : Type 0} (env : Worker S I) where
  -- The handler answers 404 and changes nothing.
  abbrev pub IsDenied : {A : Type 0} → Exec (World S I) A → World S I → Type 0
  IsDenied handler w = handler w ≡ (err (http_exception 404 rag_not_found), w)

  owned-IsDenied :
      (rag_id user_id : ℕ) (w : World S I)
      → Repo.get_rag w.db rag_id user_id ≡ none
      → IsDenied (owned env rag_id user_id) w
  unfolding owned
  owned-IsDenied rag_id user_id w h = rw h

  behind-IsDenied :
      {A : Type 0} (rag_id user_id : ℕ) (rest : RagSet → Exec (World S I) A) (w : World S I)
      → Repo.get_rag w.db rag_id user_id ≡ none
      → IsDenied (owned env rag_id user_id >>= rest) w
  behind-IsDenied rag_id user_id rest w h = rw (owned-IsDenied rag_id user_id w h)

  -- For a set that is not the caller's, or is deleted or missing, the handlers that add, list and remove
  -- its documents, import an archive, read a batch, read, change and delete the set, read its icon, and
  -- read its configuration answer 404 and change neither the tables, the store, the index nor a queue.
  pub handlers-IsDenied :
      (rag_id user_id document_id batch_id : ℕ) (files : List UploadFile) (file : UploadFile)
      (payload : DocumentsFromBucketIn) (change : RagUpdate) (fold : Text → Text) (w : World S I)
      → Repo.get_rag w.db rag_id user_id ≡ none
      → IsDenied (upload_documents env rag_id files user_id) w
        × IsDenied (add_documents_from_bucket env rag_id payload user_id) w
        × IsDenied (delete_rag env rag_id user_id) w
        × IsDenied (documents_of_rag env rag_id user_id) w
        × IsDenied (remove_document env rag_id document_id user_id) w
        × IsDenied (import_archive env rag_id file user_id) w
        × IsDenied (batch_of_rag env rag_id batch_id user_id) w
        × IsDenied (get_rag env fold rag_id user_id) w
        × IsDenied (update_rag env fold rag_id change user_id) w
        × IsDenied (get_icon env fold rag_id user_id) w
        × IsDenied (internal_rag env rag_id user_id) w
  unfolding upload_documents add_documents_from_bucket delete_rag documents_of_rag remove_document
      import_archive batch_of_rag get_rag update_rag get_icon internal_rag
  handlers-IsDenied rag_id user_id document_id batch_id files file payload change fold w h = (
    behind-IsDenied rag_id user_id _ w h,
    behind-IsDenied rag_id user_id _ w h,
    behind-IsDenied rag_id user_id _ w h,
    behind-IsDenied rag_id user_id _ w h,
    behind-IsDenied rag_id user_id _ w h,
    behind-IsDenied rag_id user_id _ w h,
    behind-IsDenied rag_id user_id _ w h,
    behind-IsDenied rag_id user_id _ w h,
    behind-IsDenied rag_id user_id _ w h,
    behind-IsDenied rag_id user_id _ w h,
    behind-IsDenied rag_id user_id _ w h,
  )
