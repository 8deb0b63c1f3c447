-- ===== src/Jobs/Register.antt =====
-- app/tasks/jobs.py: the order "row, then task" of `_register_document`.
use rag_ingestion_service.Repo.{find_by_hash, record_job}
use rag_ingestion_service.Storage.{put_bytes, document_key}
use rag_ingestion_service.Exec.{pure, >>=-Keeps, Exec, continue, Keeps}
use rag_ingestion_service.World.{on_store, transaction_ind, World}
use rag_ingestion_service.Prelude.{
  none, some, length, Option, Text, All, All-append, All-imp, Bool, List, [], arith, nat_eq,
  option_eq, text_eq, true, ℕ, ◌++◌, ◌+◌, ◌==◌, ◌||◌, ◌∷◌, ◌≡◌,
}
use rag_ingestion_service.Jobs.{
  new_document, register_document, Worker, add_stored, register_new, enqueue_document,
  add_and_enqueue,
}
use rag_ingestion_service.Models.{Origin, Db, Document, insert_document, insert_job}
use rag_ingestion_service.Prelude.Result.{ok}
use rag_ingestion_service.Prelude.Filter.{any}

-- Every document of the queue has a row.
abbrev Backed : List Document → List ℕ → Type 0
Backed documents queue = All (λ i. any (λ d. d.id == i) documents ≡ true) queue

-- Every document that waits for the worker has its row.
abbrev pub HasRows : {S I : Type 0} → World S I → Type 0
HasRows w = Backed w.db.documents w.ingest_queue

any-snoc :
    (p : Document → Bool) (ds : List Document) (d : Document)
    → any p (ds ++ d ∷ []) ≡ (any p ds || p d)
unfolding any
any-snoc p [] d = ground arith
any-snoc p (x ∷ ds) d = ground (arith, any-snoc p ds d)

inserted :
    (document : Document) (db db' : Db)
    → insert_document document db ≡ ok db'
    → db'.documents ≡ db.documents ++ document ∷ []
unfolding insert_document
inserted document db db' e = ground arith

recorded :
    (now job_id document_id rq_job_id : ℕ) (db db' : Db)
    → record_job now job_id document_id rq_job_id db ≡ ok db'
    → db'.documents ≡ db.documents
unfolding record_job insert_job
recorded now job_id document_id rq_job_id db db' e = ground arith

enqueued :
    (ds : List Document) (d : Document) (queue : List ℕ)
    → Backed ds queue
    → Backed (ds ++ d ∷ []) (queue ++ d.id ∷ [])
enqueued ds d queue h =
    All-append _ queue (d.id ∷ [])
      (All-imp _ _ queue (λ i e. ground (arith, any-snoc (λ x. x.id == i) ds d)) h)
      (ground (arith, any-snoc (λ x. x.id == d.id) ds d), tt)

module _ {S I : Type 0} (env : Worker S I) where
  add_and_enqueue-Keeps : (document : Document) → Keeps HasRows (add_and_enqueue env document)
  add_and_enqueue-Keeps document w h =
      transaction_ind
        (λ r (w' : World S I). HasRows (continue r (λ _. enqueue_document env document.id) w').1)
        (λ (w' : World S I). insert_document document w'.db) w
        (λ db e.
          transaction_ind (λ _ (w' : World S I). HasRows w')
            (λ (w' : World S I). record_job w'.now (w.next_id + 1) document.id w.next_id w'.db) _
            (λ db' e'.
              rw (recorded _ _ _ _ db db' e', inserted document w.db db e)
                (enqueued w.db.documents document w.ingest_queue h))
            (λ x.
              rw (inserted document w.db db e) (enqueued w.db.documents document w.ingest_queue h)))
        (λ x. h)

  add_stored-Keeps :
      (rag_id : ℕ) (filename payload : Text) (origin : Origin) (batch_id document_id : ℕ)
      (key : Text)
      → Keeps HasRows (add_stored env rag_id filename payload origin batch_id document_id key)
  add_stored-Keeps rag_id filename payload origin batch_id document_id key w =
      let doc =
        new_document w.now document_id rag_id filename (length payload) (env.digest payload) key
          none origin (some batch_id) in
      >>=-Keeps HasRows (add_and_enqueue env doc) (λ _. pure (some document_id))
        (add_and_enqueue-Keeps doc) (λ _ s h. h) w

  register_new-Keeps :
      (rag_id : ℕ) (filename payload : Text) (origin : Origin) (batch_id : ℕ)
      → Keeps HasRows (register_new env rag_id filename payload origin batch_id)
  register_new-Keeps rag_id filename payload origin batch_id w h =
      let key = document_key (env.render rag_id) (env.render w.next_id) filename in
      >>=-Keeps HasRows (on_store (put_bytes env.s3 env.settings.s3_bucket_docs key payload))
        (λ _. add_stored env rag_id filename payload origin batch_id w.next_id key) (λ s h'. h')
        (λ _. add_stored-Keeps rag_id filename payload origin batch_id w.next_id key)
        (record w { next_id = w.next_id + 1 }) h

  -- Registering a document keeps every waiting document backed by its row, whether the object, the
  -- row or the record of the task is refused, or nothing is.
  pub register_document-Keeps :
      (rag_id : ℕ) (filename payload : Text) (origin : Origin) (batch_id : ℕ) (w : World S I)
      → HasRows w
      → HasRows (register_document env rag_id filename payload origin batch_id w).1
  unfolding register_document
  register_document-Keeps rag_id filename payload origin batch_id w h =
      go (find_by_hash w.db rag_id (env.digest payload))
    where
      go :
          (o : Option Document)
          → (let m : Exec (World S I) (Option ℕ) = elim o [
            | some _ ↦ pure none
            | none ↦ register_new env rag_id filename payload origin batch_id
          ] in
              HasRows (m w).1)
      go (some _) = h
      go none = register_new-Keeps rag_id filename payload origin batch_id w h
