-- ===== src/Steps/Remote.antt =====
-- app/api/rags.py: what the statements on documents keep of the tables, the handlers that take
-- objects of a bucket keep.
use rag_ingestion_service.Prelude.{
  List, Text, [], is_empty, nat_eq, none, not, option_eq, refl, some, text_eq, ℕ, ◌&&◌, ◌*◌, ◌++◌,
  ◌∷◌, ◌≡◌,
}
use rag_ingestion_service.Prelude.Result.{Result, ok, err}
use rag_ingestion_service.BucketImport.{Rejected, select, drop_known}
use rag_ingestion_service.Errors.{Exception}
use rag_ingestion_service.Exec.{Keeps, if-Keeps, >>=-Keeps}
use rag_ingestion_service.Models.{Db, Document, insert_document}
use rag_ingestion_service.Models.Stable.{KeepsRows}
use rag_ingestion_service.Repo
use rag_ingestion_service.Repo.{total_bytes, count_rags}
use rag_ingestion_service.Storage.{RemoteObject, list_objects, bucket_exists}
use rag_ingestion_service.World.{World, on_store, transaction}
use rag_ingestion_service.Jobs.{Worker, enqueue_document}
use rag_ingestion_service.Api.{owned}
use rag_ingestion_service.Api.Remote.{
  DocumentsFromBucketIn, remote_documents, insert_documents, enqueue_documents, register_remote,
  fit_objects, collect, add_collected, add_documents_from_bucket,
}
use rag_ingestion_service.Steps.Jobs.{Holds, transaction-Keeps, enqueue_document-Keeps}
use rag_ingestion_service.Steps.Handlers.{owned-Keeps}

module _ {S I : Type 0} (env : Worker S I) (P : Db → Type 0) (rows : KeepsRows P) where
  open env use {settings, digest, render}

  abbrev Kept : World S I → Type 0
  Kept = Holds env P rows

  insert_documents-keeps :
      (documents : List Document) (db db' : Db)
      → insert_documents documents db ≡ ok db'
      → P db
      → P db'
  unfolding insert_documents
  insert_documents-keeps [] db db' e h = let same : db ≡ db' = cc in rw (← same) h
  insert_documents-keeps (d ∷ ds) db db' e h =
      go (insert_document d db)
        (λ db1 e1 e2. insert_documents-keeps ds db1 db' e2 (rows.insert_document d db db1 e1 h))
        refl e
    where
      go :
          (r : Result Exception Db)
          → ((db1 : Db) → insert_document d db ≡ ok db1 → insert_documents ds db1 ≡ ok db' → P db')
          → insert_document d db ≡ r
          → (elim r [ ok db1 ↦ insert_documents ds db1 | err x ↦ err x ]) ≡ ok db'
          → P db'
      go (ok db1) rest e1 e2 = rest db1 e1 e2
      go (err x) rest e1 e2 = cc

  enqueue_documents-Keeps :
      (documents : List Document) → Keeps Kept (enqueue_documents env documents)
  unfolding enqueue_documents
  enqueue_documents-Keeps [] = λ w h. h
  enqueue_documents-Keeps (d ∷ ds) =
      >>=-Keeps Kept (enqueue_document env d.id) _ (enqueue_document-Keeps env P rows d.id)
        (λ _. enqueue_documents-Keeps ds)

  pub register_remote-Keeps :
      (rag_id : ℕ) (bucket : Text) (objects : List RemoteObject)
      → Keeps Kept (register_remote env rag_id bucket objects)
  unfolding register_remote
  register_remote-Keeps rag_id bucket objects w h =
      let documents = remote_documents digest w.now w.next_id rag_id bucket objects in
      >>=-Keeps Kept (transaction (λ (s : World S I). insert_documents documents s.db)) _
        (transaction-Keeps env P rows (λ (s : World S I). insert_documents documents s.db)
          (λ s db. insert_documents-keeps documents s.db db))
        (λ _.
          >>=-Keeps Kept (enqueue_documents env documents) _ (enqueue_documents-Keeps documents)
            (λ _ s p. p))
        _ h

  collect-Keeps : (payload : DocumentsFromBucketIn) → Keeps Kept (collect env payload)
  unfolding collect
  collect-Keeps payload =
      if-Keeps Kept (is_empty payload.keys) _ _
        (>>=-Keeps Kept
          (on_store (
            list_objects env.s3 payload.bucket
              (elim payload.prefix [ some prefix ↦ prefix | none ↦ [] ]) payload.recursive
              (settings.bucket_import_max_files * 2)))
          _ (λ w h. h) (λ objects w h. h))
        (λ w h. h)

  add_collected-Keeps :
      (rag_id : ℕ) (payload : DocumentsFromBucketIn) (objects : List RemoteObject)
      (missing : List Rejected)
      → Keeps Kept (add_collected env rag_id payload objects missing)
  unfolding add_collected
  add_collected-Keeps rag_id payload objects missing w h =
      let picked = select digest settings payload.bucket objects payload.extensions in
      let selection =
        drop_known digest payload.bucket
          (record { accepted = picked.accepted; rejected = picked.rejected ++ missing })
          (Repo.existing_hashes w.db rag_id) in
      let fitting =
        (fit_objects settings.rag_max_bytes_per_set (total_bytes w.db rag_id)
          selection.accepted).0 in
      >>=-Keeps Kept (register_remote env rag_id payload.bucket fitting) _
        (register_remote-Keeps rag_id payload.bucket fitting) (λ _ s p. p) w h

  pub add_documents_from_bucket-Keeps :
      (rag_id : ℕ) (payload : DocumentsFromBucketIn) (user_id : ℕ)
      → Keeps Kept (add_documents_from_bucket env rag_id payload user_id)
  unfolding add_documents_from_bucket
  add_documents_from_bucket-Keeps rag_id payload user_id =
      >>=-Keeps Kept (owned env rag_id user_id) _ (owned-Keeps env P rows rag_id user_id) (λ rag w.
        if-Keeps Kept (not (bucket_exists env.s3 payload.bucket w.store)) _ _ (λ s h. h)
          (>>=-Keeps Kept (collect env payload) _ (collect-Keeps payload) (λ (objects, missing).
            if-Keeps Kept (is_empty objects && is_empty missing) _ _ (λ s h. h)
              (add_collected-Keeps rag_id payload objects missing)))
          w)
