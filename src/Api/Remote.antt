-- ===== src/Api/Remote.antt =====
-- app/api/rags.py: `_register_remote`, `_collect` and `add_documents_from_bucket`, with
-- `DocumentsFromBucketIn` of app/schemas/rags.py.
use rag_ingestion_service.Prelude.{
  Bool, List, Option, Text, [], ap, arith, if_ind, if◌then◌else◌, is_empty, length, ltb, map,
  nat_eq, none, not, option_eq, refl, some, text_eq, ℕ, ◌&&◌, ◌*◌, ◌++◌, ◌+◌, ◌<◌, ◌==◌, ◌∷◌, ◌≡◌,
  ◌≤◌,
}
use rag_ingestion_service.Prelude.Result.{Result, ok, err}
use rag_ingestion_service.Prelude.Filter.{filter, sum_of}
use rag_ingestion_service.BucketImport.{
  Rejected, set_too_large, object_not_found, content_hash_for, select, drop_known,
}
use rag_ingestion_service.Errors.{Exception, http_exception, bucket_not_found, no_objects}
use rag_ingestion_service.Exec.{Exec, pure, raise, gets, modify, ◌>>=◌, ◌>>◌}
use rag_ingestion_service.Models.{Db, Document, from_bucket, insert_document}
use rag_ingestion_service.Repo
use rag_ingestion_service.Storage
use rag_ingestion_service.Repo.{RagStatus, counts_for, status_of, total_bytes}
use rag_ingestion_service.Storage.{RemoteObject, bucket_exists, list_objects}
use rag_ingestion_service.World.{World, on_store, transaction}
use rag_ingestion_service.Jobs.{Worker, new_document, enqueue_document}
use rag_ingestion_service.Api.{owned}

pub record DocumentsFromBucketIn : Type 0 where
  pub bucket : Text
  pub prefix : Option Text
  pub keys : List Text
  pub recursive : Bool
  pub extensions : List Text

pub record AcceptedDocument : Type 0 where
  pub document_id : ℕ
  pub source_key : Text

pub record DocumentsFromBucketOut : Type 0 where
  pub status : RagStatus
  pub accepted_documents : List AcceptedDocument
  pub rejected_documents : List Rejected

-- `dict.fromkeys`: the first of each key.
unfoldable pub first_of_each : List Text → List Text
first_of_each [] = []
first_of_each (key ∷ keys) =
    let rest = first_of_each keys in key ∷ filter (λ k. not (k == key)) rest

-- The loop over the accepted objects: `used` grows by an object that does not fit, too.
unfoldable pub fit_objects : ℕ → ℕ → List RemoteObject → List RemoteObject × List Rejected
fit_objects limit used [] = ([], [])
fit_objects limit used (obj ∷ objects) =
    let (fitting, oversized) = fit_objects limit (used + obj.size) objects in
    if ltb limit (used + obj.size)
    then (fitting, record { source_key = obj.key; reason = set_too_large } ∷ oversized)
    else (obj ∷ fitting, oversized)

-- The documents of the objects, with identifiers from `id` on.
unfoldable pub remote_documents :
    (Text → Text) → ℕ → ℕ → ℕ → Text → List RemoteObject → List Document
remote_documents digest now id rag_id bucket [] = []
remote_documents digest now id rag_id bucket (obj ∷ objects) =
    new_document now id rag_id (Storage.filename obj) obj.size (content_hash_for digest bucket obj)
      obj.key (some bucket) from_bucket none
    ∷ remote_documents digest now (id + 1) rag_id bucket objects

unfoldable pub insert_documents : List Document → Db → Result Exception Db
insert_documents [] db = ok db
insert_documents (d ∷ ds) db = elim (insert_document d db) [
  | ok db' ↦ insert_documents ds db'
  | err e ↦ err e
]

module _ {S I : Type 0} (env : Worker S I) where
  open env use {s3, settings, digest}

  unfoldable pub enqueue_documents : List Document → Exec (World S I) (Unit {0})
  enqueue_documents [] = pure tt
  enqueue_documents (d ∷ ds) = do enqueue_document env d.id; enqueue_documents ds

  -- `_register_remote`: all rows in one transaction, and then their tasks.
  unfoldable pub register_remote :
      ℕ → Text → List RemoteObject → Exec (World S I) (List AcceptedDocument)
  unfolding remote_documents insert_documents enqueue_documents
  register_remote rag_id bucket objects = do
    documents ←
        gets (λ (w : World S I). remote_documents digest w.now w.next_id rag_id bucket objects)
    modify (λ (w : World S I). record w { next_id = w.next_id + length objects })
    transaction (λ w. insert_documents documents w.db)
    enqueue_documents documents
    pure (
        map (λ (d : Document). record { document_id = d.id; source_key = d.storage_key }) documents)

  head_objects : Text → List Text → S → List RemoteObject × List Rejected
  head_objects bucket [] s = ([], [])
  head_objects bucket (key ∷ keys) s =
      let (objects, missing) = head_objects bucket keys s in
      elim (Storage.head_object s3 bucket key s) [
        | none ↦ (objects, record { source_key = key; reason = object_not_found } ∷ missing)
        | some obj ↦ (obj ∷ objects, missing)
      ]

  -- `_collect`
  unfoldable pub collect :
      DocumentsFromBucketIn → Exec (World S I) (List RemoteObject × List Rejected)
  unfolding head_objects first_of_each
  collect payload =
      if is_empty payload.keys
      then (do
        objects ← on_store (
            list_objects s3 payload.bucket
              (elim payload.prefix [ some prefix ↦ prefix | none ↦ [] ]) payload.recursive
              (settings.bucket_import_max_files * 2))
        pure (objects, []))
      else gets
          (λ (w : World S I). head_objects payload.bucket (first_of_each payload.keys) w.store)

  -- The part of `add_documents_from_bucket` behind the check that something was found.
  unfoldable pub add_collected :
      ℕ
      → DocumentsFromBucketIn
      → List RemoteObject
      → List Rejected
      → Exec (World S I) DocumentsFromBucketOut
  add_collected rag_id payload objects missing = do
    known ← gets (λ (w : World S I). Repo.existing_hashes w.db rag_id)
    let picked = select digest settings payload.bucket objects payload.extensions
    let selection =
        drop_known digest payload.bucket
          (record { accepted = picked.accepted; rejected = picked.rejected ++ missing }) known
    used ← gets (λ (w : World S I). total_bytes w.db rag_id)
    let (fitting, oversized) = fit_objects settings.rag_max_bytes_per_set used selection.accepted
    accepted ← register_remote rag_id payload.bucket fitting
    counts ← gets (λ (w : World S I). counts_for w.db rag_id)
    pure (record {
      status = status_of counts;
      accepted_documents = accepted;
      rejected_documents = selection.rejected ++ oversized;
    })

  unfoldable pub add_documents_from_bucket :
      ℕ → DocumentsFromBucketIn → ℕ → Exec (World S I) DocumentsFromBucketOut
  unfolding collect add_collected
  add_documents_from_bucket rag_id payload user_id = do
    owned env rag_id user_id
    there ← gets (λ (w : World S I). bucket_exists s3 payload.bucket w.store)
    if not there then raise (http_exception 404 (bucket_not_found payload.bucket)) else (do
      (objects, missing) ← collect payload
      if is_empty objects && is_empty missing
          then raise (http_exception 400 (no_objects payload.bucket))
          else add_collected rag_id payload objects missing)

Split : ℕ → ℕ → List RemoteObject → List RemoteObject × List Rejected → Type 0
Split limit used objects (fitting, oversized) =
    (used + sum_of (λ o. o.size) fitting ≤ limit)
    × (map (λ o. o.key) fitting ++ map (λ r. r.source_key) oversized ≡ map (λ o. o.key) objects)

AllRefused : List RemoteObject → List RemoteObject × List Rejected → Type 0
AllRefused objects (fitting, oversized) =
    (fitting ≡ []) × (map (λ r. r.source_key) oversized ≡ map (λ o. o.key) objects)

-- Once the limit is passed nothing is taken any more.
fit_objects-AllRefused :
    (limit used : ℕ) (objects : List RemoteObject)
    → limit < used
    → AllRefused objects (fit_objects limit used objects)
unfolding fit_objects AllRefused
fit_objects-AllRefused limit used [] h = (refl, refl)
fit_objects-AllRefused limit used (obj ∷ objects) h =
    let (none_fits, all) = fit_objects-AllRefused limit (used + obj.size) objects (omega arith) in
    if_ind (AllRefused (obj ∷ objects)) (ltb limit (used + obj.size))
      (λ _. (none_fits, ap (λ ks. obj.key ∷ ks) all)) (λ e. absurd (ground arith))

-- A set that is within its limit stays within it with the objects that it takes, and the objects
-- that are taken and those that are refused are a beginning and the rest of the objects offered,
-- in order.
pub fit_objects_lem :
    (limit used : ℕ) (objects : List RemoteObject)
    → used ≤ limit
    → let (fitting, oversized) = fit_objects limit used objects in
      (used + sum_of (λ o. o.size) fitting ≤ limit)
      × (map (λ o. o.key) fitting ++ map (λ r. r.source_key) oversized ≡ map (λ o. o.key) objects)
unfolding fit_objects sum_of Split AllRefused
fit_objects_lem limit used [] h = (omega arith, refl)
fit_objects_lem limit used (obj ∷ objects) h =
    if_ind (Split limit used (obj ∷ objects)) (ltb limit (used + obj.size))
      (λ e.
        let (none_fits, all) =
          fit_objects-AllRefused limit (used + obj.size) objects (ground arith) in
        (rw none_fits (omega arith), rw none_fits (ap (λ ks. obj.key ∷ ks) all)))
      (λ e.
        let (room, keys) = fit_objects_lem limit (used + obj.size) objects (ground arith) in
        (omega arith, ap (λ ks. obj.key ∷ ks) keys))
