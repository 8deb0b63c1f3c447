-- ===== src/Steps/Handlers.antt =====
-- app/api/rags.py and app/api/admin.py: what the statements of the service keep of the tables, the
-- handlers on documents, batches and the deletion of sets keep, whatever they answer.
use rag_ingestion_service.Prelude.{
  List, Text, [], codes, contains, ends_with, is_empty, lower, ltb, nat_eq, none, not, option_eq,
  text_eq, ℕ, ◌*◌, ◌+◌, ◌||◌, ◌∷◌,
}
use rag_ingestion_service.Exec.{Keeps, if-Keeps, elim-Keeps, >>=-Keeps}
use rag_ingestion_service.Models.{Db, ImportBatch, s3, from_upload, insert_batch, is_alive}
use rag_ingestion_service.Models.Stable.{KeepsRows}
use rag_ingestion_service.Repo.{find_by_hash, get_document, total_bytes}
use rag_ingestion_service.Storage.{StoredObject, stream_upload, delete, document_key, suffix_of}
use rag_ingestion_service.World.{World, on_store, transaction}
use rag_ingestion_service.Jobs.{Worker, new_document, add_and_enqueue}
use rag_ingestion_service.Api.{
  UploadFile, owned, catch_value_error, name_of, file_stored, upload_file, upload_files,
  upload_documents, remove_document, new_batch, staging_key, import_archive,
}
use rag_ingestion_service.Api.Sets.{any_rag}
use rag_ingestion_service.Api.Admin.{queue_import, import_from_staging}
use rag_ingestion_service.Steps.Jobs.{Holds, transaction-Keeps, add_and_enqueue-Keeps}

module _ {S I : Type 0} (env : Worker S I) (P : Db → Type 0) (rows : KeepsRows P) where
  open env use {settings, digest, render}

  abbrev Kept : World S I → Type 0
  Kept = Holds env P rows

  pub owned-Keeps : (rag_id user_id : ℕ) → Keeps Kept (owned env rag_id user_id)
  unfolding owned
  owned-Keeps rag_id user_id w h = h

  file_stored-Keeps :
      (rag_id used document_id : ℕ) (name : Text) (stored : StoredObject)
      → Keeps Kept (file_stored env rag_id used document_id name stored)
  unfolding file_stored
  file_stored-Keeps rag_id used document_id name stored =
      let dropped : Keeps Kept (on_store (delete env.s3 settings.s3_bucket_docs stored.key)) =
        λ w h. h in
      if-Keeps Kept (ltb settings.rag_max_bytes_per_set used) _ _
        (>>=-Keeps Kept (on_store (delete env.s3 settings.s3_bucket_docs stored.key)) _ (λ w h. h)
          (λ _ w h. h))
        (λ w.
          elim-Keeps Kept (find_by_hash w.db rag_id stored.content_hash) _ _
            (λ s.
              let doc =
                new_document s.now document_id rag_id name stored.size_bytes stored.content_hash
                  stored.key none from_upload none in
              >>=-Keeps Kept (add_and_enqueue env doc) _ (add_and_enqueue-Keeps env P rows doc)
                (λ _ t h. h) s)
            (λ d.
              >>=-Keeps Kept (on_store (delete env.s3 settings.s3_bucket_docs stored.key)) _
                (λ s h. h) (λ _ s h. h))
            w)

  upload_file-Keeps :
      (rag_id used : ℕ) (file : UploadFile) → Keeps Kept (upload_file env rag_id used file)
  unfolding upload_file
  upload_file-Keeps rag_id used file =
      let name = name_of file in
      if-Keeps Kept (is_empty name) _ _ (λ w h. h)
        (if-Keeps Kept (not (contains settings.allowed_suffixes (suffix_of name))) _ _ (λ w h. h)
          (λ w h.
            >>=-Keeps Kept
              (catch_value_error (
                on_store (
                  stream_upload env.s3 digest settings.s3_bucket_docs
                    (document_key (render rag_id) (render w.next_id) name) file.body
                    (settings.max_upload_mb * 1024 * 1024))))
              _ (λ s p. p)
              (λ stored.
                >>=-Keeps Kept
                  (file_stored env rag_id (used + stored.size_bytes) w.next_id name stored) _
                  (file_stored-Keeps rag_id (used + stored.size_bytes) w.next_id name stored)
                  (λ answer s p. p))
              _ h))

  upload_files-Keeps :
      (rag_id used : ℕ) (files : List UploadFile) → Keeps Kept (upload_files env rag_id used files)
  unfolding upload_files
  upload_files-Keeps rag_id used [] = λ w h. h
  upload_files-Keeps rag_id used (file ∷ files) =
      >>=-Keeps Kept (upload_file env rag_id used file) _ (upload_file-Keeps rag_id used file)
        (λ (answer, used').
          >>=-Keeps Kept (upload_files env rag_id used' files) _
            (upload_files-Keeps rag_id used' files) (λ _ w h. h))

  pub upload_documents-Keeps :
      (rag_id : ℕ) (files : List UploadFile) (user_id : ℕ)
      → Keeps Kept (upload_documents env rag_id files user_id)
  unfolding upload_documents
  upload_documents-Keeps rag_id files user_id =
      >>=-Keeps Kept (owned env rag_id user_id) _ (owned-Keeps rag_id user_id)
        (λ rag w. upload_files-Keeps rag_id (total_bytes w.db rag_id) files w)

  pub remove_document-Keeps :
      (rag_id document_id user_id : ℕ) → Keeps Kept (remove_document env rag_id document_id user_id)
  unfolding remove_document
  remove_document-Keeps rag_id document_id user_id =
      >>=-Keeps Kept (owned env rag_id user_id) _ (owned-Keeps rag_id user_id) (λ rag w.
        elim-Keeps Kept (get_document w.db rag_id document_id) _ _ (λ s h. h)
          (λ document s h. rows.delete_document_row document_id s.db h) w)

  pub insert_batch-Keeps :
      (batch : ImportBatch) → Keeps Kept (transaction (λ (w : World S I). insert_batch batch w.db))
  insert_batch-Keeps batch =
      transaction-Keeps env P rows (λ (w : World S I). insert_batch batch w.db)
        (λ w db. rows.insert_batch batch w.db db)

  pub import_archive-Keeps :
      (rag_id : ℕ) (file : UploadFile) (user_id : ℕ)
      → Keeps Kept (import_archive env rag_id file user_id)
  unfolding import_archive
  import_archive-Keeps rag_id file user_id =
      >>=-Keeps Kept (owned env rag_id user_id) _ (owned-Keeps rag_id user_id) (λ rag.
        if-Keeps Kept
          (is_empty (name_of file) || not (ends_with (lower (name_of file)) (codes ".zip"))) _ _
          (λ w h. h)
          (λ w h.
            >>=-Keeps Kept
              (transaction
                (λ (s : World S I). insert_batch (new_batch env w.now w.next_id rag_id) s.db))
              _ (insert_batch-Keeps (new_batch env w.now w.next_id rag_id))
              (λ _.
                >>=-Keeps Kept
                  (catch_value_error (
                    on_store (
                      stream_upload env.s3 digest settings.s3_bucket_staging
                        (staging_key env rag_id w.next_id) file.body
                        settings.archive_max_uncompressed)))
                  _ (λ s p. p) (λ _ s p. p))
              _ h))

  queue_import-Keeps : (rag_id : ℕ) (prefix : Text) → Keeps Kept (queue_import env rag_id prefix)
  unfolding queue_import
  queue_import-Keeps rag_id prefix w =
      let batch = record (new_batch env w.now w.next_id rag_id) { kind = s3 } in
      λ h.
        >>=-Keeps Kept (transaction (λ (s : World S I). insert_batch batch s.db)) _
          (insert_batch-Keeps batch) (λ _ s p. p) _ h

  pub import_from_staging-Keeps :
      (rag_id : ℕ) (prefix : Text) → Keeps Kept (import_from_staging env rag_id prefix)
  unfolding import_from_staging
  import_from_staging-Keeps rag_id prefix w =
      elim-Keeps Kept (any_rag rag_id w.db.rag_sets) _ _ (λ s h. h)
        (λ rag. if-Keeps Kept (is_alive rag) _ _ (queue_import-Keeps rag_id prefix) (λ s h. h)) w
