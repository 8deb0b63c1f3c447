-- ===== src/Steps/Imports.antt =====
-- app/tasks/jobs.py: what the statements of the service keep of the tables, the import of an archive
-- and of a prefix keep, however they end.
use rag_ingestion_service.Prelude.{
  List, Option, Text, [], after_last, contains, if_ind, if◌then◌else◌, is_empty, length, map,
  nat_eq, none, not, option_eq, refl, slash, some, text_eq, ℕ, ◌+◌, ◌==◌, ◌∷◌, ◌≡◌,
}
use rag_ingestion_service.Prelude.Result.{Result, ok, err}
use rag_ingestion_service.Archive.{ArchiveEntry, plan}
use rag_ingestion_service.Errors.{Exception, archive_rejected}
use rag_ingestion_service.Exec.{Keeps, lift, if-Keeps, elim-Keeps, >>=-Keeps}
use rag_ingestion_service.Models.{
  Db, ImportBatch, BatchStatus, from_archive, from_s3, batch_success, batch_rejected, batch_failed,
  batch_processing,
}
use rag_ingestion_service.Models.Stable.{KeepsRows}
use rag_ingestion_service.Repo.{find_by_hash, finish_batch}
use rag_ingestion_service.Storage.{Item, get_bytes, copy, list_prefix, document_key, suffix_of}
use rag_ingestion_service.World.{World, on_store}
use rag_ingestion_service.Jobs.{
  Worker, new_document, add_and_enqueue, register_document, on_error_ind,
}
use rag_ingestion_service.Jobs.Archives.{
  start_batch, close_batch, find_batch, raised_plan, register_entries, expand_body, handle_failure,
  expand_archive,
}
use rag_ingestion_service.Jobs.Prefixes.{
  import_object, import_objects, import_body, import_s3_prefix,
}
use rag_ingestion_service.Steps.Jobs.{Holds, register_document-Keeps, add_and_enqueue-Keeps}

module _ {S I : Type 0} (env : Worker S I) (P : Db → Type 0) (rows : KeepsRows P) where
  open env use {s3, settings, digest, render, message}

  abbrev Kept : World S I → Type 0
  Kept = Holds env P rows

  batches_keep :
      (batch_id : ℕ) (f : ImportBatch → ImportBatch) (db : Db)
      → ((b : ImportBatch) → ((f b).id ≡ b.id) × ((f b).rag_id ≡ b.rag_id))
      → P db
      → P (record db {
        import_batches = map (λ b. if b.id == batch_id then f b else b) db.import_batches;
      })
  batches_keep batch_id f db same = rows.map_batches _ db (λ b.
      if_ind (λ (c : ImportBatch). (c.id ≡ b.id) × (c.rag_id ≡ b.rag_id)) (b.id == batch_id)
        (λ _. same b) (λ _. (refl, refl)))

  start_batch-keeps : (batch_id : ℕ) (w : World S I) → Kept w → P (start_batch batch_id w)
  start_batch-keeps batch_id w =
      batches_keep batch_id (λ b. record b { status = batch_processing }) w.db (λ b. (refl, refl))

  close_batch-keeps :
      (batch_id : ℕ) (status : BatchStatus) (created skipped total : ℕ) (error : Option Text)
      (w : World S I)
      → Kept w
      → Kept (close_batch batch_id status created skipped total error w)
  unfolding finish_batch
  close_batch-keeps batch_id status created skipped total error w =
      batches_keep batch_id
        (λ b. record b {
          status = status;
          documents_created = created;
          documents_skipped = skipped;
          documents_total = total;
          error = error;
          finished_at = some w.now;
        })
        w.db (λ b. (refl, refl))

  register_entries-Keeps :
      (rag_id batch_id : ℕ) (raw : Text) (items : List ArchiveEntry) (created skipped : ℕ)
      → Keeps Kept (register_entries env rag_id batch_id raw items created skipped)
  unfolding register_entries
  register_entries-Keeps rag_id batch_id raw [] created skipped = λ w h. h
  register_entries-Keeps rag_id batch_id raw (item ∷ items) created skipped =
      >>=-Keeps Kept (lift (env.read_entry raw item.raw_name)) _ (λ s h. h)
        (λ payload.
          >>=-Keeps Kept (register_document env rag_id item.name payload from_archive batch_id) _
            (register_document-Keeps env P rows rag_id item.name payload from_archive batch_id)
            (λ document_id. register_entries-Keeps rag_id batch_id raw items _ _))

  expand_body-Keeps :
      (batch_id : ℕ) (staging_key : Text) → Keeps Kept (expand_body env batch_id staging_key)
  unfolding expand_body
  expand_body-Keeps batch_id staging_key w =
      elim-Keeps Kept (find_batch batch_id w) _ _ (λ s h. h)
        (λ batch s h.
          >>=-Keeps Kept (on_store (get_bytes s3 settings.s3_bucket_staging staging_key)) _
            (λ t p. p)
            (λ raw.
              >>=-Keeps Kept (lift (env.open_zip raw)) _ (λ t p. p)
                (λ infolist.
                  >>=-Keeps Kept (lift (raised_plan (plan settings infolist))) _ (λ t p. p)
                    (λ archive_plan.
                      >>=-Keeps Kept
                        (register_entries env batch.rag_id batch_id raw archive_plan.entries 0
                          (length archive_plan.skipped))
                        _
                        (register_entries-Keeps batch.rag_id batch_id raw archive_plan.entries 0
                          (length archive_plan.skipped))
                        (λ (created, skipped) t p.
                          close_batch-keeps batch_id batch_success created skipped
                            (created + skipped) none t p))))
            _ (start_batch-keeps batch_id s h))
        w

  handle_failure-keeps :
      (batch_id : ℕ) (r : Result Exception ℕ) (w : World S I)
      → Kept w
      → Kept (handle_failure env batch_id r w).1
  unfolding handle_failure
  handle_failure-keeps batch_id (ok created) w h = h
  handle_failure-keeps batch_id (err (archive_rejected e)) w h =
      close_batch-keeps batch_id batch_rejected 0 0 0 _ w h
  handle_failure-keeps batch_id (err e) w h = close_batch-keeps batch_id batch_failed 0 0 0 _ w h

  pub expand_archive-Keeps :
      (batch_id : ℕ) (staging_key : Text) → Keeps Kept (expand_archive env batch_id staging_key)
  unfolding expand_archive
  expand_archive-Keeps batch_id staging_key w h =
      let (r, w') = expand_body env batch_id staging_key w in
      handle_failure-keeps batch_id r w' (expand_body-Keeps batch_id staging_key w h)

  import_object-Keeps :
      (rag_id batch_id : ℕ) (key filename : Text)
      → Keeps Kept (import_object env rag_id batch_id key filename)
  unfolding import_object
  import_object-Keeps rag_id batch_id key filename =
      >>=-Keeps Kept (on_store (get_bytes s3 settings.s3_bucket_staging key)) _ (λ s h. h)
        (λ payload w.
          elim-Keeps Kept (find_by_hash w.db rag_id (digest payload)) _ _
            (λ s h.
              >>=-Keeps Kept
                (on_store (
                  copy s3 settings.s3_bucket_staging key settings.s3_bucket_docs
                    (document_key (render rag_id) (render s.next_id) filename)))
                _ (λ t p. p)
                (λ size t.
                  let doc =
                    new_document t.now s.next_id rag_id filename size (digest payload)
                      (document_key (render rag_id) (render s.next_id) filename) none from_s3
                      (some batch_id) in
                  >>=-Keeps Kept (add_and_enqueue env doc) _ (add_and_enqueue-Keeps env P rows doc)
                    (λ _ u p. p) t)
                _ h)
            (λ _ s h. h) w)

  import_objects-Keeps :
      (rag_id batch_id : ℕ) (items : List Item) (created skipped : ℕ)
      → Keeps Kept (import_objects env rag_id batch_id items created skipped)
  unfolding import_objects
  import_objects-Keeps rag_id batch_id [] created skipped = λ w h. h
  import_objects-Keeps rag_id batch_id (item ∷ rest) created skipped =
      let filename = after_last slash item.item_key in
      if-Keeps Kept (is_empty filename) _ _
        (import_objects-Keeps rag_id batch_id rest created skipped)
        (if-Keeps Kept (not (contains settings.allowed_suffixes (suffix_of filename))) _ _
          (import_objects-Keeps rag_id batch_id rest created (skipped + 1))
          (>>=-Keeps Kept (import_object env rag_id batch_id item.item_key filename) _
            (import_object-Keeps rag_id batch_id item.item_key filename)
            (λ made. import_objects-Keeps rag_id batch_id rest _ _)))

  import_body-Keeps : (batch_id : ℕ) (prefix : Text) → Keeps Kept (import_body env batch_id prefix)
  unfolding import_body
  import_body-Keeps batch_id prefix w =
      elim-Keeps Kept (find_batch batch_id w) _ _ (λ s h. h)
        (λ batch s h.
          >>=-Keeps Kept (on_store (list_prefix s3 settings.s3_bucket_staging prefix)) _ (λ t p. p)
            (λ objects.
              >>=-Keeps Kept (import_objects env batch.rag_id batch_id objects 0 0) _
                (import_objects-Keeps batch.rag_id batch_id objects 0 0)
                (λ (created, skipped) t p.
                  close_batch-keeps batch_id batch_success created skipped (created + skipped) none
                    t p))
            _ (start_batch-keeps batch_id s h))
        w

  pub import_s3_prefix-Keeps :
      (batch_id : ℕ) (prefix : Text) → Keeps Kept (import_s3_prefix env batch_id prefix)
  unfolding import_s3_prefix
  import_s3_prefix-Keeps batch_id prefix w h =
      on_error_ind (λ _ (t : World S I). Kept t) (λ _ (t : World S I). Kept t)
        (import_body env batch_id prefix) _ w (import_body-Keeps batch_id prefix w h) (λ a t p. p)
        (λ e t p. close_batch-keeps batch_id batch_failed 0 0 0 _ t p)
