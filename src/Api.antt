-- ===== src/Api.antt =====
-- app/api/rags.py: handlers of the platform API, as changes of the state that they share with the
-- worker. `env` gives the store, the digest and the rendering of a UUID.
pub mod Remote
pub mod Access
pub mod Deletion
pub mod Sets
pub mod Updates
pub mod Schemas
pub mod Internal
pub mod Admin
pub mod Embed
pub mod Routes
pub mod Routing
pub mod Startup
pub mod Health
mod Examples
pub mod Responses
pub mod Creation
pub mod Samples
use rag_ingestion_service.Prelude.{
  List, Option, Text, [], codes, contains, ends_with, if◌then◌else◌, is_empty, lower, ltb, nat_eq,
  none, not, option_eq, slash, some, text_eq, ℕ, ◌*◌, ◌++◌, ◌+◌, ◌||◌, ◌∷◌,
}
use rag_ingestion_service.Prelude.Result.{Result, ok, err}
use rag_ingestion_service.Errors.{
  Exception, Detail, http_exception, over_limit, rag_not_found, document_not_found,
  import_not_found, no_filename, set_too_large, only_zip, file_too_large, unsupported_suffix,
}
use rag_ingestion_service.Exec.{Exec, pure, raise, gets, modify, lift, continue, ◌>>=◌, ◌>>◌}
use rag_ingestion_service.Models.{
  Db, RagSet, Document, ImportBatch, DocumentStatus, pending, from_upload, archive, batch_pending,
  insert_batch, delete_document_row,
}
use rag_ingestion_service.Repo
use rag_ingestion_service.Repo.{
  soft_delete_rag, get_document, find_by_hash, list_documents, total_bytes, get_batch,
}
use rag_ingestion_service.Storage.{StoredObject, stream_upload, delete, document_key, suffix_of}
use rag_ingestion_service.World.{
  World, Task, on_store, fresh_id, transaction, write, enqueue_maintenance, expand_archive,
  purge_rag, purge_document,
}
use rag_ingestion_service.Jobs.{Worker, new_document, add_and_enqueue}

-- FastAPI's UploadFile: the name and the type that the client sent, and the body as it is read.
pub record UploadFile : Type 0 where
  pub upload_filename : Option Text
  pub content_type : Option Text
  pub body : List Text

pub record DocumentAccepted : Type 0 where
  pub id : ℕ
  pub filename : Text
  pub status : DocumentStatus
  pub duplicate_of : Option ℕ

-- `not file.filename` holds of a missing name and of an empty one.
abbrev pub name_of : UploadFile → Text
name_of file = elim file.upload_filename [ some name ↦ name | none ↦ [] ]

-- `except ValueError` around `stream_upload`
abbrev as_http : Exception → Exception
as_http (over_limit limit) = http_exception 413 (file_too_large limit)
as_http e = e

abbrev refused : {A : Type 0} → Result Exception A → Result Exception A
refused (ok a) = ok a
refused (err e) = err (as_http e)

abbrev pub catch_value_error : {S A : Type 0} → Exec S A → Exec S A
catch_value_error m s = let (r, s') = m s in (refused r, s')

module _ {S I : Type 0} (env : Worker S I) where
  open env use {s3, settings, digest, render}

  -- `_owned`
  unfoldable pub owned : ℕ → ℕ → Exec (World S I) RagSet
  owned rag_id user_id = do
    found ← gets (λ (w : World S I). Repo.get_rag w.db rag_id user_id)
    lift (elim found [ some rag ↦ ok rag | none ↦ err (http_exception 404 rag_not_found) ])

  -- The rest of the body of the loop for a file that is stored under its key.
  unfoldable pub file_stored : ℕ → ℕ → ℕ → Text → StoredObject → Exec (World S I) DocumentAccepted
  file_stored rag_id used document_id name stored =
      let drop_object = on_store (delete s3 settings.s3_bucket_docs stored.key) in
      if ltb settings.rag_max_bytes_per_set used
      then (do drop_object; raise (http_exception 413 set_too_large))
      else (do
        existing ← gets (λ (w : World S I). find_by_hash w.db rag_id stored.content_hash)
        elim existing [
          | some d ↦ do
            drop_object
            pure (record {
              id = d.id;
              filename = d.filename;
              status = d.status;
              duplicate_of = some d.id;
            })
          | none ↦ do
            now ← gets (λ (w : World S I). w.now)
            add_and_enqueue env (
                new_document now document_id rag_id name stored.size_bytes stored.content_hash
                  stored.key none from_upload none)
            pure (record {
              id = document_id;
              filename = name;
              status = pending;
              duplicate_of = none;
            })
        ])

  -- The body of the loop: the answer for the file, and the next value of `used`.
  unfoldable pub upload_file : ℕ → ℕ → UploadFile → Exec (World S I) (DocumentAccepted × ℕ)
  unfolding file_stored
  upload_file rag_id used file =
      let name = name_of file in
      let taken : Exec (World S I) (DocumentAccepted × ℕ) = (do
        document_id ← fresh_id
        let key = document_key (render rag_id) (render document_id) name
        stored ← catch_value_error (
            on_store (
              stream_upload s3 digest settings.s3_bucket_docs key file.body
                (settings.max_upload_mb * 1024 * 1024)))
        answer ← file_stored rag_id (used + stored.size_bytes) document_id name stored
        pure (answer, used + stored.size_bytes)) in
      if is_empty name
      then raise (http_exception 400 no_filename)
      else if not (contains settings.allowed_suffixes (suffix_of name))
      then raise (http_exception 415 (unsupported_suffix (suffix_of name)))
      else taken

  unfoldable pub upload_files : ℕ → ℕ → List UploadFile → Exec (World S I) (List DocumentAccepted)
  unfolding upload_file
  upload_files rag_id used [] = pure []
  upload_files rag_id used (file ∷ files) = do
    (answer, used') ← upload_file rag_id used file
    answers ← upload_files rag_id used' files
    pure (answer ∷ answers)

  unfoldable pub upload_documents :
      ℕ → List UploadFile → ℕ → Exec (World S I) (List DocumentAccepted)
  unfolding upload_files
  upload_documents rag_id files user_id = do
    owned rag_id user_id
    used ← gets (λ (w : World S I). total_bytes w.db rag_id)
    upload_files rag_id used files

  unfoldable pub delete_rag : ℕ → ℕ → Exec (World S I) (Unit {0})
  delete_rag rag_id user_id = do
    owned rag_id user_id
    write (λ (w : World S I). soft_delete_rag w.now rag_id w.db)
    enqueue_maintenance (purge_rag rag_id)

  unfoldable pub documents_of_rag : ℕ → ℕ → Exec (World S I) (List Document)
  documents_of_rag rag_id user_id = do
    owned rag_id user_id
    gets (λ (w : World S I). list_documents w.db rag_id)

  -- `delete_document`: the row, and then the task that removes what it stood for.
  unfoldable pub remove_document : ℕ → ℕ → ℕ → Exec (World S I) (Unit {0})
  remove_document rag_id document_id user_id = do
    owned rag_id user_id
    found ← gets (λ (w : World S I). get_document w.db rag_id document_id)
    elim found [
      | none ↦ raise (http_exception 404 document_not_found)
      | some document ↦ do
        write (λ (w : World S I). delete_document_row document_id w.db)
        enqueue_maintenance
            (purge_document rag_id document_id document.storage_key document.source_bucket)
    ]

  abbrev pub new_batch : ℕ → ℕ → ℕ → ImportBatch
  new_batch now id rag_id = record {
    id = id;
    rag_id = rag_id;
    kind = archive;
    status = batch_pending;
    documents_total = 0;
    documents_created = 0;
    documents_skipped = 0;
    error = none;
    created_at = now;
    finished_at = none;
  }

  abbrev pub staging_key : ℕ → ℕ → Text
  staging_key rag_id batch_id =
      codes "archives/" ++ render rag_id ++ slash ∷ render batch_id ++ codes ".zip"

  unfoldable pub import_archive : ℕ → UploadFile → ℕ → Exec (World S I) ImportBatch
  import_archive rag_id file user_id = do
    owned rag_id user_id
    if is_empty (name_of file) || not (ends_with (lower (name_of file)) (codes ".zip"))
        then raise (http_exception 415 only_zip)
        else (do
          batch_id ← fresh_id
          now ← gets (λ (w : World S I). w.now)
          transaction (λ w. insert_batch (new_batch now batch_id rag_id) w.db)
          catch_value_error (
              on_store (
                stream_upload s3 digest settings.s3_bucket_staging (staging_key rag_id batch_id)
                  file.body settings.archive_max_uncompressed))
          enqueue_maintenance (expand_archive batch_id (staging_key rag_id batch_id))
          pure (new_batch now batch_id rag_id))

  unfoldable pub batch_of_rag : ℕ → ℕ → ℕ → Exec (World S I) ImportBatch
  batch_of_rag rag_id batch_id user_id = do
    owned rag_id user_id
    found ← gets (λ (w : World S I). get_batch w.db batch_id rag_id)
    lift (elim found [ some batch ↦ ok batch | none ↦ err (http_exception 404 import_not_found) ])
