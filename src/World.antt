-- ===== src/World.antt =====
-- The state that the handlers of the API and the jobs of the worker share: the tables, the object
-- store, the search index, the queues of Redis, the clock and the supply of fresh identifiers.
use rag_ingestion_service.Prelude.{
  ◌≡◌, List, Option, Text, refl, [], nat_eq, option_eq, text_eq, ℕ, ◌++◌, ◌+◌, ◌∷◌,
}
use rag_ingestion_service.Prelude.Result.{Result, ok, err}
use rag_ingestion_service.Errors.{Exception}
use rag_ingestion_service.Exec.{Exec}
use rag_ingestion_service.Models.{Db}

-- The functions that app/tasks/jobs.py gives to the maintenance queue, with their arguments.
pub data Task : Type 0 where
  expand_archive : ℕ → Text → Task
  import_s3_prefix : ℕ → Text → Task
  purge_rag : ℕ → Task
  purge_document : ℕ → ℕ → Text → Option Text → Task

pub record World (S I : Type 0) : Type 0 where
  pub db : Db
  pub store : S
  pub index : I
  -- documents waiting for `ingest_document`
  pub ingest_queue : List ℕ
  pub maintenance_queue : List Task
  pub now : ℕ
  pub next_id : ℕ

module _ {S I : Type 0} where
  abbrev pub on_store : {A : Type 0} → Exec S A → Exec (World S I) A
  on_store m w = let (r, s) = m w.store in (r, record w { store = s })

  abbrev pub on_index : {A : Type 0} → Exec I A → Exec (World S I) A
  on_index m w = let (r, i) = m w.index in (r, record w { index = i })

  -- `uuid.uuid4()`
  abbrev pub fresh_id : Exec (World S I) ℕ
  fresh_id w = (ok w.next_id, record w { next_id = w.next_id + 1 })

  abbrev pub commit : Result Exception Db → World S I → Result Exception (Unit {0}) × World S I
  commit (ok db) w = (ok tt, record w { db = db })
  commit (err e) w = (err e, w)

  -- One transaction: its writes are committed together, or rolled back with the exception.
  abbrev pub transaction : (World S I → Result Exception Db) → Exec (World S I) (Unit {0})
  transaction f w = commit (f w) w

  pub transaction_ind :
      (P : Result Exception (Unit {0}) → World S I → Type 0) (f : World S I → Result Exception Db)
      (w : World S I)
      → ((db : Db) → f w ≡ ok db → P (ok tt) (record w { db = db }))
      → ((e : Exception) → P (err e) w)
      → P (transaction f w).0 (transaction f w).1
  transaction_ind P f w on_ok on_err = go (f w) refl
    where
      go : (r : Result Exception Db) → f w ≡ r → P (commit r w).0 (commit r w).1
      go (ok db) e = on_ok db e
      go (err x) e = on_err x

  -- A write that no constraint can refuse.
  abbrev pub write : (World S I → Db) → Exec (World S I) (Unit {0})
  write f w = (ok tt, record w { db = f w })

  -- `ingest_queue().enqueue(ingest_document, …)`, with the identifier of the job.
  abbrev pub enqueue_ingest : ℕ → Exec (World S I) ℕ
  enqueue_ingest document_id w = (
    ok w.next_id,
    record w { ingest_queue = w.ingest_queue ++ document_id ∷ []; next_id = w.next_id + 1 },
  )

  abbrev pub enqueue_maintenance : Task → Exec (World S I) (Unit {0})
  enqueue_maintenance task w =
      (ok tt, record w { maintenance_queue = w.maintenance_queue ++ task ∷ [] })
