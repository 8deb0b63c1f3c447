-- ===== src/Steps.antt =====
-- The service as a transition system: app/api/rags.py and app/api/admin.py answer requests, and the
-- worker of app/tasks takes jobs from the queues, on the state that they share. A step is a whole
-- handler or a whole job. Handlers that only read are left out.
pub mod Jobs
pub mod Imports
pub mod Handlers
pub mod Remote
pub mod Removal
pub mod Sets
pub mod Quota
pub mod Replacement
pub mod Additions
pub mod Edits
pub mod Changes
pub mod Moves
pub mod Limits
pub mod Invariant
mod Samples
use rag_ingestion_service.Prelude.{
  All, All-append, All-imp, Bool, Bool-cases, Distinct, Distinct-snoc, List, Option, Option-cases,
  Text, [], after_last, ap, arith, codes, contains, contains-after_last, contains-append,
  contains-remove_ne, dot, drop, ends_with, false, foldl, foldl_inv, if_ind, if◌then◌else◌, inl,
  inr, is_empty, leb, length, length-append, length-map, length-remove-le, length-remove-lt, lower,
  lower_char, ltb, map, nat_eq, none, not, option_eq, refl, remove, slash, some, suc, sym, take,
  take-append-drop, text_eq, true, zero, ℕ, ◌%◌, ◌&&◌, ◌*◌, ◌++◌, ◌+◌, ◌-◌, ◌/◌, ◌<◌, ◌==◌, ◌^◌,
  ◌||◌, ◌↔◌, ◌∙◌, ◌∷◌, ◌≡◌, ◌≢◌, ◌≤◌, ◌⊎◌,
}
use rag_ingestion_service.Exec.{Exec, ◌>>◌, pure}
use rag_ingestion_service.Models.{empty_db}
use rag_ingestion_service.World
use rag_ingestion_service.World.{World, Task}
use rag_ingestion_service.Jobs.{Worker, ingest_document, purge_rag, purge_document}
use rag_ingestion_service.Jobs.Archives.{expand_archive}
use rag_ingestion_service.Jobs.Prefixes.{import_s3_prefix}
use rag_ingestion_service.Api
use rag_ingestion_service.Api.{UploadFile, upload_documents, remove_document, import_archive}
use rag_ingestion_service.Api.Remote.{DocumentsFromBucketIn, add_documents_from_bucket}
use rag_ingestion_service.Api.Sets.{RagCreate, RagFromBucketIn, create_rag, create_from_bucket}
use rag_ingestion_service.Api.Updates.{RagUpdate, update_rag, put_icon}
use rag_ingestion_service.Api.Admin.{import_from_staging}

-- The requests that may change the state; the last number is the caller, but for the operator's.
pub data Request : Type 0 where
  post_rag : RagCreate → ℕ → Request
  post_from_bucket : RagFromBucketIn → ℕ → Request
  patch_rag : ℕ → RagUpdate → ℕ → Request
  put_rag_icon : ℕ → UploadFile → ℕ → Request
  remove_rag : ℕ → ℕ → Request
  post_documents : ℕ → List UploadFile → ℕ → Request
  post_documents_from_bucket : ℕ → DocumentsFromBucketIn → ℕ → Request
  remove_one_document : ℕ → ℕ → ℕ → Request
  post_archive : ℕ → UploadFile → ℕ → Request
  post_staging_import : ℕ → Text → Request

module _ {S I : Type 0} (env : Worker S I) (fold : Text → Text)
    (normalize : Text → Option Text) where
  -- The state that the handler of a request leaves.
  unfoldable pub handle : Request → World S I → World S I
  handle (post_rag payload user_id) w = (create_rag env fold payload user_id w).1
  handle (post_from_bucket payload user_id) w = (create_from_bucket env fold payload user_id w).1
  handle (patch_rag rag_id payload user_id) w = (update_rag env fold rag_id payload user_id w).1
  handle (put_rag_icon rag_id file user_id) w =
      (put_icon env fold normalize rag_id file user_id w).1
  handle (remove_rag rag_id user_id) w = (Api.delete_rag env rag_id user_id w).1
  handle (post_documents rag_id files user_id) w = (upload_documents env rag_id files user_id w).1
  handle (post_documents_from_bucket rag_id payload user_id) w =
      (add_documents_from_bucket env rag_id payload user_id w).1
  handle (remove_one_document rag_id document_id user_id) w =
      (remove_document env rag_id document_id user_id w).1
  handle (post_archive rag_id file user_id) w = (import_archive env rag_id file user_id w).1
  handle (post_staging_import rag_id prefix) w = (import_from_staging env rag_id prefix w).1

  -- The job of the maintenance queue.
  unfoldable pub run_task : Task → Exec (World S I) ℕ
  run_task (World.expand_archive batch_id staging_key) = expand_archive env batch_id staging_key
  run_task (World.import_s3_prefix batch_id prefix) = import_s3_prefix env batch_id prefix
  run_task (World.purge_rag rag_id) = purge_rag env rag_id
  run_task (World.purge_document rag_id document_id storage_key source_bucket) =
      purge_document env (env.render rag_id) (env.render document_id) storage_key source_bucket

  pub data Step : World S I → World S I → Type 0 where
    request : (r : Request) (w : World S I) → Step w (handle r w)
    ingest :
        (document_id : ℕ) (rest : List ℕ) (w : World S I)
        → w.ingest_queue ≡ document_id ∷ rest
        → Step w (ingest_document env document_id (record w { ingest_queue = rest })).1
    maintain :
        (task : Task) (rest : List Task) (w : World S I)
        → w.maintenance_queue ≡ task ∷ rest
        → Step w (run_task task (record w { maintenance_queue = rest })).1
    -- Time passes, and others write to the store and the index.
    elapse :
        (later : ℕ) (store : S) (index : I) (w : World S I)
        → Step w (record w { now = later; store = store; index = index })

  -- From empty tables.
  pub data Reachable : World S I → Type 0 where
    start : (w : World S I) → w.db ≡ empty_db → Reachable w
    and_then : {w w' : World S I} → Reachable w → Step w w' → Reachable w'
