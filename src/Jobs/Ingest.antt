-- ===== src/Jobs/Ingest.antt =====
-- app/tasks/jobs.py: how `ingest_document` leaves the row of its document.
use rag_ingestion_service.Prelude.{
  inr, inl, ◌⊎◌, All, List, Option, Text, [], arith, if_ind, if◌then◌else◌, map, nat_eq, none,
  option_eq, refl, some, take, text_eq, true, ℕ, ◌==◌, ◌∷◌, ◌≡◌,
}
use rag_ingestion_service.Jobs.{
  finally_ind, on_error, Worker, index_source, report_success, start_processing, ingest_document,
  ingest_found, fetch_source, ingest_body, fail_processing, on_error_ind,
}
use rag_ingestion_service.Exec.{◌>>=◌, >>=_ind, Exec, pure}
use rag_ingestion_service.Repo.{marked, mark_document, scalar_one_or_none}
use rag_ingestion_service.Prelude.Result.{Result, ok, err}
use rag_ingestion_service.Prelude.Filter.{filter}
use rag_ingestion_service.Errors.{Exception}
use rag_ingestion_service.Models.{Db, Document, success, failed, DocumentStatus}
use rag_ingestion_service.World.{World}

-- Every row of the identifier has the given status and error.
abbrev pub HasOutcome : DocumentStatus → Option Text → Document → Type 0
HasOutcome status error d = (d.status ≡ status) × (d.error ≡ error)

abbrev pub rows_of : ℕ → Db → List Document
rows_of document_id db = filter (λ d. d.id == document_id) db.documents

marked-HasOutcome :
    (now : ℕ) (status : DocumentStatus) (error : Option Text) (d : Document) (chunks : Option ℕ)
    → HasOutcome status error (marked now status error chunks d)
marked-HasOutcome now status error d none = (refl, refl)
marked-HasOutcome now status error d (some chunks) = (refl, refl)

mark_document-HasOutcome :
    (now document_id : ℕ) (status : DocumentStatus) (error : Option Text) (chunks : Option ℕ)
    (db : Db)
    → All
        (HasOutcome status error)
        (rows_of document_id (mark_document now document_id status error chunks db))
unfolding mark_document filter
mark_document-HasOutcome now document_id status error chunks db = go db.documents
  where
    mark : Document → Document
    mark d = if d.id == document_id then marked now status error chunks d else d

    mark-HasOutcome :
        (d : Document) → ((mark d).id == document_id) ≡ true → HasOutcome status error (mark d)
    mark-HasOutcome d =
        if_ind (λ (x : Document). (x.id == document_id) ≡ true → HasOutcome status error x)
          (d.id == document_id) (λ _ _. marked-HasOutcome now status error d chunks)
          (λ e. ground arith)

    go :
        (rows : List Document)
        → All (HasOutcome status error) (filter (λ d. d.id == document_id) (map mark rows))
    go [] = tt
    go (d ∷ rows) =
        if_ind (All (HasOutcome status error)) ((mark d).id == document_id)
          (λ e. (mark-HasOutcome d e, go rows)) (λ e. go rows)

module _ {S I : Type 0} (env : Worker S I) where
  -- How the body and the handler of its exceptions leave the rows of the document.
  abbrev HandledIsSettled : ℕ → Result Exception ℕ → Db → Type 0
  HandledIsSettled document_id (ok loaded) db =
      All (HasOutcome success none) (rows_of document_id db)
  HandledIsSettled document_id (err e) db =
      All (HasOutcome failed (some (take 2000 (env.message e)))) (rows_of document_id db)

  -- The rows are marked as processed, or as failed with the text of some exception.
  abbrev pub IsEither : ℕ → Db → Type 0
  IsEither document_id db =
      All (HasOutcome success none) (rows_of document_id db)
      ⊎ ((e : Exception) × All (HasOutcome failed (some (take 2000 (env.message e))))
            (rows_of document_id db))

  -- How a run that ended with the given outcome leaves the rows of its document.
  pub IsSettled : ℕ → Result Exception ℕ → Db → Type 0
  IsSettled document_id (ok loaded) db = All (HasOutcome success none) (rows_of document_id db)
  IsSettled document_id (err e) db =
      All (HasOutcome failed (some (take 2000 (env.message e)))) (rows_of document_id db)
      ⊎ ((env.closing ≡ err e) × IsEither document_id db)

  handled-IsEither :
      (document_id : ℕ) (r : Result Exception ℕ) (db : Db)
      → HandledIsSettled document_id r db
      → IsEither document_id db
  handled-IsEither document_id (ok loaded) db h = inl h
  handled-IsEither document_id (err e) db h = inr (e, h)

  handled-IsSettled :
      (document_id : ℕ) (r : Result Exception ℕ) (db : Db)
      → HandledIsSettled document_id r db
      → IsSettled document_id r db
  unfolding IsSettled
  handled-IsSettled document_id (ok loaded) db h = h
  handled-IsSettled document_id (err e) db h = inl h

  -- Before the handler, only a run that returned has settled its document.
  abbrev BodyIsSettled : ℕ → Result Exception ℕ → World S I → Type 0
  BodyIsSettled document_id (ok loaded) w = All (HasOutcome success none) (rows_of document_id w.db)
  BodyIsSettled document_id (err e) w = Unit {0}

  ingest_found-BodyIsSettled :
      (document_id : ℕ) (document : Document) (w : World S I)
      → BodyIsSettled document_id
          (ingest_found env document_id document w).0
          (ingest_found env document_id document w).1
  unfolding ingest_found
  ingest_found-BodyIsSettled document_id document w =
      >>=_ind (BodyIsSettled document_id) (fetch_source env document)
        (λ source. index_source env document_id document source >>= report_success env document_id)
        (record w { db = start_processing env document_id w }) (λ e s. tt)
        (λ source s.
          >>=_ind (BodyIsSettled document_id) (index_source env document_id document source)
            (report_success env document_id) s (λ e s'. tt)
            (λ loaded s'.
              mark_document-HasOutcome s'.now document_id success none (some loaded) s'.db))

  ingest_body-BodyIsSettled :
      (document_id : ℕ) (w : World S I) (document : Document) (o : Option Document)
      → o ≡ some document
      → (let m : Exec (World S I) ℕ = elim o [
        | none ↦ pure 0
        | some d ↦ ingest_found env document_id d
      ] in
          BodyIsSettled document_id (m w).0 (m w).1)
  ingest_body-BodyIsSettled document_id w document none found = cc
  ingest_body-BodyIsSettled document_id w document (some d) found =
      ingest_found-BodyIsSettled document_id d w

  handled-HandledIsSettled :
      (document_id : ℕ) (w : World S I) (document : Document)
      → scalar_one_or_none (rows_of document_id w.db) ≡ some document
      → let (r, w') = on_error (ingest_body env document_id) (fail_processing env document_id) w in
        HandledIsSettled document_id r w'.db
  unfolding ingest_body
  handled-HandledIsSettled document_id w document found =
      on_error_ind (BodyIsSettled document_id)
        (λ r (w' : World S I). HandledIsSettled document_id r w'.db) (ingest_body env document_id)
        (fail_processing env document_id) w
        (ingest_body-BodyIsSettled document_id w document _ found) (λ loaded w' h. h)
        (λ e w' _.
          mark_document-HasOutcome w'.now document_id failed (some (take 2000 (env.message e))) none
            w'.db)

  -- Where the database takes the writes of its state and nothing stops its process, a job whose document
  -- is there does not leave the row in processing. When it returns, the row is marked as processed,
  -- without an error. When it raises, the row is marked as failed, with the first 2000 characters of the
  -- exception; or the exception is one of the closing of the clients, which comes after the row was
  -- marked as processed or failed.
  pub ingest_document-IsSettled :
      (document_id : ℕ) (w : World S I) (document : Document)
      → scalar_one_or_none (rows_of document_id w.db) ≡ some document
      → let (r, w') = ingest_document env document_id w in IsSettled document_id r w'.db
  unfolding ingest_document IsSettled
  ingest_document-IsSettled document_id w document found =
      finally_ind (λ r (w' : World S I). HandledIsSettled document_id r w'.db)
        (λ r (w' : World S I). IsSettled document_id r w'.db)
        (on_error (ingest_body env document_id) (fail_processing env document_id)) env.closing w
        (handled-HandledIsSettled document_id w document found)
        (λ r w'. handled-IsSettled document_id r w'.db)
        (λ r e w' closed h. inr (closed, handled-IsEither document_id r w'.db h))
