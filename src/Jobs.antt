-- ===== src/Jobs.antt =====
-- app/tasks/jobs.py: the tasks of the worker, as changes of the shared state. Docling, the zip
-- reader, hashlib, the rendering of a UUID and the text of an exception are arguments.
pub mod Register
pub mod Ingest
pub mod Archives
pub mod Backed
pub mod Counts
pub mod Prefixes
pub mod Purge
mod Samples
use rag_ingestion_service.Prelude.Paths.{path_name}
use rag_ingestion_service.Prelude.{
  ◌≡◌, refl, List, Option, Text, [], codes, if◌then◌else◌, is_empty, length, map, nat_eq, none,
  option_eq, slash, some, take, text_eq, true, ℕ, ◌++◌, ◌==◌, ◌∷◌,
}
use rag_ingestion_service.Prelude.Result.{Result, ok, err}
use rag_ingestion_service.Prelude.Filter.{filter, any}
use rag_ingestion_service.Archive.{ZipInfo, ArchiveRejected, ArchiveEntry, plan}
use rag_ingestion_service.Docling.Chunk.{DoclingChunk}
use rag_ingestion_service.Embeddings.{EmbeddingResult}
use rag_ingestion_service.Errors.{Exception, archive_rejected}
use rag_ingestion_service.Exec.{Exec, pure, raise, gets, modify, lift, continue, ◌>>=◌, ◌>>◌}
use rag_ingestion_service.Models.{
  Db, Document, IngestJob, ImportBatch, Origin, from_archive, from_s3, BatchStatus,
  batch_processing, batch_success, batch_rejected, batch_failed, pending, processing, success,
  failed, insert_document, delete_rag_row,
}
use rag_ingestion_service.Pipeline.{ingest_source}
use rag_ingestion_service.Repo.{
  find_by_hash, mark_document, finish_batch, record_job, scalar_one_or_none,
}
use rag_ingestion_service.Search
use rag_ingestion_service.Search.{OpenSearch}
use rag_ingestion_service.Settings.{Settings}
use rag_ingestion_service.Storage.{
  S3, Item, put_bytes, get_bytes, presigned_get, copy, delete, delete_prefix, list_prefix,
  document_key, suffix_of,
}
use rag_ingestion_service.World.{
  World, on_store, on_index, fresh_id, transaction, write, enqueue_ingest,
}

-- What docling is given: a copy of the file, by its name and content, or a signed link.
pub data DocSource : Type 0 where
  local_file : Text → Text → DocSource
  presigned : Text → DocSource

-- The environment of a worker.
pub record Worker (S I : Type 0) : Type 0 where
  pub s3 : S3 S
  pub client : OpenSearch I
  pub settings : Settings
  -- blake2b of 16 bytes as hexadecimal digits, `str` of a UUID, and `str(exc)`
  pub digest : Text → Text
  pub render : ℕ → Text
  pub message : Exception → Text
  -- the outcome of the docling client for a source, a set and a document
  pub chunker : DocSource → Text → Text → Result Exception (List DoclingChunk)
  pub embedder : List Text → Result Exception (List EmbeddingResult)
  -- the outcome of `embedder.close()`, `os_client.close()` and `dispose()`
  pub closing : Result Exception (Unit {0})
  -- `zipfile.ZipFile(raw).infolist()` and `.read(raw_name)`
  pub open_zip : Text → Result Exception (List ZipInfo)
  pub read_entry : Text → Text → Result Exception Text

-- A new row of `documents`, with the defaults of the table.
abbrev pub new_document :
    ℕ → ℕ → ℕ → Text → ℕ → Text → Text → Option Text → Origin → Option ℕ → Document
new_document now id rag_id filename size_bytes content_hash storage_key source_bucket origin
      origin_ref =
    record {
      id = id;
      rag_id = rag_id;
      filename = filename;
      size_bytes = size_bytes;
      content_hash = content_hash;
      storage_key = storage_key;
      source_bucket = source_bucket;
      origin = origin;
      origin_ref = origin_ref;
      status = pending;
      error = none;
      chunks_count = 0;
      created_at = now;
      updated_at = now;
    }

abbrev update_jobs : ℕ → (IngestJob → IngestJob) → Db → Db
update_jobs document_id f db = record db {
  ingest_jobs = map (λ j. if j.document_id == document_id then f j else j) db.ingest_jobs;
}

module _ {S A : Type 0} where
  abbrev pub cleaned : (Exception → S → S) → Result Exception A → S → Result Exception A × S
  cleaned cleanup (ok a) s = (ok a, s)
  cleaned cleanup (err e) s = (err e, cleanup e s)

  -- `try … except Exception: cleanup; raise`
  abbrev pub on_error : Exec S A → (Exception → S → S) → Exec S A
  on_error m cleanup s = let (r, s') = m s in cleaned cleanup r s'

-- What holds of the end of the body, and after the cleanup of an exception, holds of both.
pub on_error_ind :
    {S A : Type 0} (P Q : Result Exception A → S → Type 0) (m : Exec S A)
    (cleanup : Exception → S → S) (s : S)
    → P (m s).0 (m s).1
    → ((a : A) (s' : S) → P (ok a) s' → Q (ok a) s')
    → ((e : Exception) (s' : S) → P (err e) s' → Q (err e) (cleanup e s'))
    → Q (on_error m cleanup s).0 (on_error m cleanup s).1
on_error_ind {S = S} {A = A} P Q m cleanup s h on_ok on_err = go (m s).0 (m s).1 h
  where
    go :
        (r : Result Exception A) (s' : S)
        → P r s'
        → Q (cleaned cleanup r s').0 (cleaned cleanup r s').1
    go (ok a) s' p = on_ok a s' p
    go (err e) s' p = on_err e s' p

-- `try … finally`: an exception of the last step replaces the outcome.
abbrev pub finally : {S A : Type 0} → Exec S A → Exec S (Unit {0}) → Exec S A
finally m last w =
    let (r, w') = m w in let (done, w'') = last w' in (elim done [ ok _ ↦ r | err e ↦ err e ], w'')

-- What holds of the outcome and of an exception of the last step, which leaves the state alone, holds
-- of both.
pub finally_ind :
    {S A : Type 0} (P Q : Result Exception A → S → Type 0) (m : Exec S A)
    (last : Result Exception (Unit {0})) (s : S)
    → P (m s).0 (m s).1
    → ((r : Result Exception A) (s' : S) → P r s' → Q r s')
    → ((r : Result Exception A) (e : Exception) (s' : S) → last ≡ err e → P r s' → Q (err e) s')
    → Q (finally m (lift last) s).0 (finally m (lift last) s).1
finally_ind P Q m (ok _) s h on_ok on_err = on_ok _ _ h
finally_ind P Q m (err e) s h on_ok on_err = on_err _ e _ refl h

module _ {S I : Type 0} (env : Worker S I) where
  open env use {s3, client, settings, digest, render, message}

  -- The task of a document, and the row that records it.
  abbrev pub enqueue_document : ℕ → Exec (World S I) (Unit {0})
  enqueue_document document_id = do
    rq_job_id ← enqueue_ingest document_id
    job_id ← fresh_id
    transaction (λ w. record_job w.now job_id document_id rq_job_id w.db)

  -- The row, and then its task.
  abbrev pub add_and_enqueue : Document → Exec (World S I) (Unit {0})
  add_and_enqueue document = do
    transaction (λ w. insert_document document w.db)
    enqueue_document document.id

  -- The row and the task of an object that is stored.
  abbrev pub add_stored : ℕ → Text → Text → Origin → ℕ → ℕ → Text → Exec (World S I) (Option ℕ)
  add_stored rag_id filename payload origin batch_id document_id key = do
    now ← gets (λ (w : World S I). w.now)
    add_and_enqueue (
        new_document now document_id rag_id filename (length payload) (digest payload) key none
          origin (some batch_id))
    pure (some document_id)

  abbrev pub register_new : ℕ → Text → Text → Origin → ℕ → Exec (World S I) (Option ℕ)
  register_new rag_id filename payload origin batch_id = do
    document_id ← fresh_id
    let key = document_key (render rag_id) (render document_id) filename
    on_store (put_bytes s3 settings.s3_bucket_docs key payload)
    add_stored rag_id filename payload origin batch_id document_id key

  -- `_register_document`: the object, then the row, then the task. `none` for known content.
  unfoldable pub register_document : ℕ → Text → Text → Origin → ℕ → Exec (World S I) (Option ℕ)
  register_document rag_id filename payload origin batch_id = do
    known ← gets (λ (w : World S I). find_by_hash w.db rag_id (digest payload))
    elim known [ some _ ↦ pure none | none ↦ register_new rag_id filename payload origin batch_id ]

  -- The first transaction of `_ingest_document`.
  abbrev pub start_processing : ℕ → World S I → Db
  start_processing document_id w =
      update_jobs document_id (λ j. record j { started_at = some w.now })
        (record w.db {
          documents =
              map
                (λ d.
                  if d.id == document_id
                  then record d { status = processing; updated_at = w.now }
                  else d)
                w.db.documents;
        })

  abbrev finish_processing : ℕ → ℕ → World S I → Db
  finish_processing document_id loaded w =
      update_jobs document_id (λ j. record j { finished_at = some w.now })
        (mark_document w.now document_id success none (some loaded) w.db)

  -- The handler of every exception of `_ingest_document`.
  abbrev pub fail_processing : ℕ → Exception → World S I → World S I
  fail_processing document_id e w =
      let error = take 2000 (message e) in
      record w {
        db =
            update_jobs document_id (λ j. record j { finished_at = some w.now; error = some error })
              (mark_document w.now document_id failed (some error) none w.db);
      }

  -- Docling is given a file with the bytes, or a link to them.
  unfoldable pub fetch_source : Document → Exec (World S I) DocSource
  fetch_source document =
      let bucket : Text = elim document.source_bucket [
        | some b ↦ if is_empty b then settings.s3_bucket_docs else b
        | none ↦ settings.s3_bucket_docs
      ] in
      if settings.docling_transfer == codes "upload"
      then (do
        payload ← on_store (get_bytes s3 bucket document.storage_key)
        pure (local_file (path_name document.storage_key) payload))
      else do
        url ← on_store (presigned_get s3 bucket document.storage_key settings.presign_ttl_seconds)
        pure (presigned url)

  abbrev pub index_source : ℕ → Document → DocSource → Exec (World S I) ℕ
  index_source document_id document source = on_index (
      ingest_source digest client settings env.embedder
        (lift (env.chunker source (render document.rag_id) (render document_id)))
        (render document.rag_id) (render document_id) true)

  abbrev pub report_success : ℕ → ℕ → Exec (World S I) ℕ
  report_success document_id loaded = do write (finish_processing document_id loaded); pure loaded

  -- The work on a document that is there.
  unfoldable pub ingest_found : ℕ → Document → Exec (World S I) ℕ
  unfolding fetch_source
  ingest_found document_id document = do
    write (start_processing document_id)
    source ← fetch_source document
    loaded ← index_source document_id document source
    report_success document_id loaded

  unfoldable pub ingest_body : ℕ → Exec (World S I) ℕ
  unfolding ingest_found
  ingest_body document_id = do
    found ←
        gets
          (λ (w : World S I). scalar_one_or_none (filter (λ d. d.id == document_id) w.db.documents))
    elim found [ none ↦ pure 0 | some document ↦ ingest_found document_id document ]

  -- `_ingest_document`
  unfoldable pub ingest_document : ℕ → Exec (World S I) ℕ
  unfolding ingest_body
  ingest_document document_id =
      finally (on_error (ingest_body document_id) (fail_processing document_id)) (lift env.closing)

  -- `_purge_rag`: the chunks, the objects and the icon, and then the rows.
  unfoldable pub purge_rag : ℕ → Exec (World S I) ℕ
  purge_rag rag_id = do
    deleted ← on_index (Search.delete_rag digest client settings (render rag_id))
    on_store (delete_prefix s3 settings.s3_bucket_docs (render rag_id ++ (slash ∷ [])))
    on_store (delete s3 settings.s3_bucket_icons (render rag_id))
    write (λ (w : World S I). delete_rag_row rag_id w.db)
    pure deleted

  -- `_purge_document`: an object of a foreign bucket is left alone.
  unfoldable pub purge_document : Text → Text → Text → Option Text → Exec (World S I) ℕ
  purge_document rag_id document_id storage_key source_bucket = do
    deleted ← on_index (Search.delete_document digest client settings rag_id document_id)
    elim source_bucket [
      | none ↦ do on_store (delete s3 settings.s3_bucket_docs storage_key); pure deleted
      | some _ ↦ pure deleted
    ]
