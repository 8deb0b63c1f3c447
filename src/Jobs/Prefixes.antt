-- ===== src/Jobs/Prefixes.antt =====
-- app/tasks/jobs.py: `import_s3_prefix`.
use rag_ingestion_service.Prelude.{
  Bool, List, Text, [], after_last, contains, false, if◌then◌else◌, is_empty, nat_eq, none, not,
  option_eq, slash, some, take, text_eq, true, ℕ, ◌+◌, ◌∷◌,
}
use rag_ingestion_service.Exec.{Exec, pure, gets, modify, ◌>>=◌, ◌>>◌}
use rag_ingestion_service.Models.{from_s3, batch_success, batch_failed}
use rag_ingestion_service.Repo.{find_by_hash}
use rag_ingestion_service.Storage.{Item, get_bytes, copy, list_prefix, document_key, suffix_of}
use rag_ingestion_service.World.{World, on_store, fresh_id, write}
use rag_ingestion_service.Jobs.{Worker, new_document, add_and_enqueue, on_error}
use rag_ingestion_service.Jobs.Archives.{start_batch, close_batch, find_batch}

module _ {S I : Type 0} (env : Worker S I) where
  open env use {s3, settings, digest, render, message}

  -- The part of the body for a key with a file name and an allowed suffix: `true` if a document
  -- was created, `false` if its content is known.
  unfoldable pub import_object : ℕ → ℕ → Text → Text → Exec (World S I) Bool
  import_object rag_id batch_id key filename = do
    payload ← on_store (get_bytes s3 settings.s3_bucket_staging key)
    known ← gets (λ (w : World S I). find_by_hash w.db rag_id (digest payload))
    elim known [
      | some _ ↦ pure false
      | none ↦ do
        document_id ← fresh_id
        let dst = document_key (render rag_id) (render document_id) filename
        size ← on_store (copy s3 settings.s3_bucket_staging key settings.s3_bucket_docs dst)
        now ← gets (λ (w : World S I). w.now)
        add_and_enqueue env (
            new_document now document_id rag_id filename size (digest payload) dst none from_s3
              (some batch_id))
        pure true
    ]

  -- The loop over the listing, with `created` and `skipped`.
  unfoldable pub import_objects : ℕ → ℕ → List Item → ℕ → ℕ → Exec (World S I) (ℕ × ℕ)
  unfolding import_object
  import_objects rag_id batch_id [] created skipped = pure (created, skipped)
  import_objects rag_id batch_id (item ∷ rest) created skipped =
      let filename = after_last slash item.item_key in
      let nameless = import_objects rag_id batch_id rest created skipped in
      let unsupported = import_objects rag_id batch_id rest created (skipped + 1) in
      let taken : Exec (World S I) (ℕ × ℕ) = (do
        made ← import_object rag_id batch_id item.item_key filename
        import_objects rag_id batch_id rest (if made then created + 1 else created)
            (if made then skipped else skipped + 1)) in
      if is_empty filename
      then nameless
      else if not (contains settings.allowed_suffixes (suffix_of filename))
      then unsupported
      else taken

  unfoldable pub import_body : ℕ → Text → Exec (World S I) ℕ
  unfolding import_objects
  import_body batch_id prefix = do
    found ← gets (find_batch batch_id)
    elim found [
      | none ↦ pure 0
      | some batch ↦ do
        write (start_batch batch_id)
        objects ← on_store (list_prefix s3 settings.s3_bucket_staging prefix)
        (created, skipped) ← import_objects batch.rag_id batch_id objects 0 0
        modify (close_batch batch_id batch_success created skipped (created + skipped) none)
        pure created
    ]

  -- `_import_s3_prefix`
  unfoldable pub import_s3_prefix : ℕ → Text → Exec (World S I) ℕ
  unfolding import_body
  import_s3_prefix batch_id prefix =
      on_error (import_body batch_id prefix)
        (λ e. close_batch batch_id batch_failed 0 0 0 (some (take 2000 (message e))))
