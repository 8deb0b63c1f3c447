-- ===== src/Steps/Jobs.antt =====
-- app/tasks/jobs.py: what the statements of the service keep of the tables, every job keeps, however
-- it ends.
use rag_ingestion_service.Jobs.{
  finally_ind, on_error, purge_document, ingest_document, new_document, Worker, enqueue_document,
  add_and_enqueue, add_stored, register_new, register_document, start_processing, fetch_source,
  index_source, ingest_found, ingest_body, fail_processing, on_error_ind,
}
use rag_ingestion_service.Prelude.Filter.{filter}
use rag_ingestion_service.Repo.{scalar_one_or_none, marked, mark_document, find_by_hash, record_job}
use rag_ingestion_service.Models.{
  IngestJob, Db, Document, Origin, insert_document, DocumentStatus, processing, success, failed,
}
use rag_ingestion_service.Models.Stable.{SameKeys, KeepsRows}
use rag_ingestion_service.Prelude.{
  Option, Text, nat_eq, none, option_eq, some, text_eq, ℕ, ◌+◌, ◌≡◌, Bool, if◌then◌else◌, if_ind,
  length, map, refl, take, ◌==◌, codes,
}
use rag_ingestion_service.Prelude.Result.{Result, ok}
use rag_ingestion_service.Errors.{Exception}
use rag_ingestion_service.Exec.{Keeps, >>=-Keeps, if-Keeps, elim-Keeps}
use rag_ingestion_service.Storage.{put_bytes, document_key, get_bytes, presigned_get, delete}
use rag_ingestion_service.World.{World, on_store, transaction, transaction_ind, on_index}
use rag_ingestion_service.Search

marked-SameKeys :
    (now : ℕ) (status : DocumentStatus) (error : Option Text) (chunks : Option ℕ) (d : Document)
    → SameKeys d (marked now status error chunks d)
marked-SameKeys now status error none d = record { id = refl; rag_id = refl; content_hash = refl }
marked-SameKeys now status error (some n) d = record {
  id = refl;
  rag_id = refl;
  content_hash = refl;
}

if_kept :
    (p : Document → Bool) (f : Document → Document)
    → ((d : Document) → SameKeys d (f d))
    → (d : Document) → SameKeys d (if p d then f d else d)
if_kept p f same d =
    if_ind (SameKeys d) (p d) (λ _. same d)
      (λ _. record { id = refl; rag_id = refl; content_hash = refl })

module _ {S I : Type 0} (env : Worker S I) (P : Db → Type 0) (rows : KeepsRows P) where
  abbrev pub Holds : World S I → Type 0
  Holds w = P w.db

  pub transaction-Keeps :
      (f : World S I → Result Exception Db)
      → ((w : World S I) (db : Db) → f w ≡ ok db → P w.db → P db)
      → Keeps Holds (transaction f)
  transaction-Keeps f keep w h =
      transaction_ind (λ _ (w' : World S I). Holds w') f w (λ db e. keep w db e h) (λ e. h)

  pub enqueue_document-Keeps : (document_id : ℕ) → Keeps Holds (enqueue_document env document_id)
  unfolding record_job
  enqueue_document-Keeps document_id w h =
      transaction-Keeps
        (λ (w' : World S I). record_job w'.now (w.next_id + 1) document_id w.next_id w'.db)
        (λ w' db. rows.insert_job _ w'.db db) _ h

  pub add_and_enqueue-Keeps : (document : Document) → Keeps Holds (add_and_enqueue env document)
  add_and_enqueue-Keeps document =
      >>=-Keeps Holds (transaction (λ (w : World S I). insert_document document w.db))
        (λ _. enqueue_document env document.id)
        (transaction-Keeps (λ (w : World S I). insert_document document w.db)
          (λ w db. rows.insert_document document w.db db))
        (λ _. enqueue_document-Keeps document.id)

  add_stored-Keeps :
      (rag_id : ℕ) (filename payload : Text) (origin : Origin) (batch_id document_id : ℕ)
      (key : Text)
      → Keeps Holds (add_stored env rag_id filename payload origin batch_id document_id key)
  add_stored-Keeps rag_id filename payload origin batch_id document_id key w =
      let doc =
        new_document w.now document_id rag_id filename (length payload) (env.digest payload) key
          none origin (some batch_id) in
      >>=-Keeps Holds (add_and_enqueue env doc) _ (add_and_enqueue-Keeps doc) (λ _ s h. h) w

  register_new-Keeps :
      (rag_id : ℕ) (filename payload : Text) (origin : Origin) (batch_id : ℕ)
      → Keeps Holds (register_new env rag_id filename payload origin batch_id)
  register_new-Keeps rag_id filename payload origin batch_id w h =
      let key = document_key (env.render rag_id) (env.render w.next_id) filename in
      >>=-Keeps Holds (on_store (put_bytes env.s3 env.settings.s3_bucket_docs key payload)) _
        (λ s h'. h') (λ _. add_stored-Keeps rag_id filename payload origin batch_id w.next_id key)
        (record w { next_id = w.next_id + 1 }) h

  pub register_document-Keeps :
      (rag_id : ℕ) (filename payload : Text) (origin : Origin) (batch_id : ℕ)
      → Keeps Holds (register_document env rag_id filename payload origin batch_id)
  unfolding register_document
  register_document-Keeps rag_id filename payload origin batch_id w h =
      elim-Keeps Holds (find_by_hash w.db rag_id (env.digest payload)) _ _
        (register_new-Keeps rag_id filename payload origin batch_id) (λ _ s h'. h') w h

  mark_document-keeps :
      (now document_id : ℕ) (status : DocumentStatus) (error : Option Text) (chunks : Option ℕ)
      (db : Db)
      → P db
      → P (mark_document now document_id status error chunks db)
  unfolding mark_document
  mark_document-keeps now document_id status error chunks db = rows.map_documents _ db (
      if_kept (λ (d : Document). d.id == document_id) (marked now status error chunks)
        (marked-SameKeys now status error chunks))

  jobs_keep :
      (document_id : ℕ) (f : IngestJob → IngestJob) (db : Db)
      → ((j : IngestJob) → ((f j).id ≡ j.id) × ((f j).document_id ≡ j.document_id))
      → P db
      → P (record db {
        ingest_jobs = map (λ j. if j.document_id == document_id then f j else j) db.ingest_jobs;
      })
  jobs_keep document_id f db same = rows.map_jobs _ db (λ j.
      if_ind (λ (k : IngestJob). (k.id ≡ j.id) × (k.document_id ≡ j.document_id))
        (j.document_id == document_id) (λ _. same j) (λ _. (refl, refl)))

  start_processing-keeps :
      (document_id : ℕ) (w : World S I) → Holds w → P (start_processing env document_id w)
  start_processing-keeps document_id w h =
      jobs_keep document_id (λ j. record j { started_at = some w.now }) _ (λ j. (refl, refl))
        (rows.map_documents _ w.db
          (if_kept (λ (d : Document). d.id == document_id)
            (λ d. record d { status = processing; updated_at = w.now })
            (λ d. record { id = refl; rag_id = refl; content_hash = refl }))
          h)

  fetch_source-Keeps : (document : Document) → Keeps Holds (fetch_source env document)
  unfolding fetch_source
  fetch_source-Keeps document =
      if-Keeps Holds (env.settings.docling_transfer == codes "upload") _ _
        (λ w h.
          >>=-Keeps Holds (on_store (get_bytes env.s3 _ document.storage_key)) _ (λ s h'. h')
            (λ payload s h'. h') w h)
        (λ w h.
          >>=-Keeps Holds
            (on_store
              (presigned_get env.s3 _ document.storage_key env.settings.presign_ttl_seconds))
            _ (λ s h'. h') (λ url s h'. h') w h)

  ingest_found-Keeps :
      (document_id : ℕ) (document : Document) → Keeps Holds (ingest_found env document_id document)
  unfolding ingest_found
  ingest_found-Keeps document_id document w h =
      >>=-Keeps Holds (fetch_source env document) _ (fetch_source-Keeps document)
        (λ source.
          >>=-Keeps Holds (index_source env document_id document source) _ (λ s h'. h')
            (λ loaded s h'.
              jobs_keep document_id (λ j. record j { finished_at = some s.now }) _
                (λ j. (refl, refl))
                (mark_document-keeps s.now document_id success none (some loaded) s.db h')))
        _ (start_processing-keeps document_id w h)

  ingest_body-Keeps : (document_id : ℕ) → Keeps Holds (ingest_body env document_id)
  unfolding ingest_body
  ingest_body-Keeps document_id w h =
      elim-Keeps Holds (scalar_one_or_none (filter (λ d. d.id == document_id) w.db.documents)) _ _
        (λ s h'. h') (ingest_found-Keeps document_id) w h

  handled-Keeps :
      (document_id : ℕ)
      → Keeps Holds (on_error (ingest_body env document_id) (fail_processing env document_id))
  handled-Keeps document_id w h =
      on_error_ind (λ _ (w' : World S I). Holds w') (λ _ (w' : World S I). Holds w')
        (ingest_body env document_id) (fail_processing env document_id) w
        (ingest_body-Keeps document_id w h) (λ a s h'. h')
        (λ e s h'.
          jobs_keep document_id
            (λ j. record j { finished_at = some s.now; error = some (take 2000 (env.message e)) }) _
            (λ j. (refl, refl))
            (mark_document-keeps s.now document_id failed (some (take 2000 (env.message e))) none
              s.db h'))

  pub ingest_document-Keeps : (document_id : ℕ) → Keeps Holds (ingest_document env document_id)
  unfolding ingest_document
  ingest_document-Keeps document_id w h =
      finally_ind (λ _ (w' : World S I). Holds w') (λ _ (w' : World S I). Holds w')
        (on_error (ingest_body env document_id) (fail_processing env document_id)) env.closing w
        (handled-Keeps document_id w h) (λ r s h'. h') (λ r e s _ h'. h')

  pub purge_document-Keeps :
      (rag_id document_id storage_key : Text) (source_bucket : Option Text)
      → Keeps Holds (purge_document env rag_id document_id storage_key source_bucket)
  unfolding purge_document
  purge_document-Keeps rag_id document_id storage_key source_bucket =
      >>=-Keeps Holds
        (on_index (Search.delete_document env.digest env.client env.settings rag_id document_id)) _
        (λ s h. h)
        (λ deleted.
          elim-Keeps Holds source_bucket _ _
            (>>=-Keeps Holds (on_store (delete env.s3 env.settings.s3_bucket_docs storage_key)) _
              (λ s h. h) (λ _ s h. h))
            (λ _ s h. h))
