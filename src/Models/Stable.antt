-- ===== src/Models/Stable.antt =====
-- app/db/models.py: what the statements of the service keep of the tables. The handlers and the
-- jobs change the tables by these statements alone.
use rag_ingestion_service.Prelude.{Text, map, nat_eq, option_eq, text_eq, ℕ, ◌≡◌, List}
use rag_ingestion_service.Prelude.Result.{ok}
use rag_ingestion_service.Models.{
  Db, RagSet, ImportBatch, Document, IngestJob, insert_rag, update_rag_row, insert_document,
  insert_batch, insert_job, delete_document_row, delete_rag_row,
}
use rag_ingestion_service.Errors.{integrity_error}
use rag_ingestion_service.Models.Writes.{guarded}
use rag_ingestion_service.Repo.{soft_delete_rag}

-- The columns that keys, foreign keys and unique indexes read stay.
pub record SameKeys (d e : Document) : Type 0 where
  pub id : e.id ≡ d.id
  pub rag_id : e.rag_id ≡ d.rag_id
  pub content_hash : e.content_hash ≡ d.content_hash

-- The statements on documents, batches and jobs.
pub record KeepsRows (P : Db → Type 0) : Type 0 where
  pub insert_document :
      (doc : Document) (db db' : Db) → insert_document doc db ≡ ok db' → P db → P db'
  pub insert_batch :
      (batch : ImportBatch) (db db' : Db) → insert_batch batch db ≡ ok db' → P db → P db'
  pub insert_job : (job : IngestJob) (db db' : Db) → insert_job job db ≡ ok db' → P db → P db'
  pub delete_document_row :
      (document_id : ℕ) (db : Db) → P db → P (delete_document_row document_id db)
  pub map_documents :
      (f : Document → Document) (db : Db)
      → ((d : Document) → SameKeys d (f d))
      → P db
      → P (record db { documents = map f db.documents })
  pub map_batches :
      (f : ImportBatch → ImportBatch) (db : Db)
      → ((b : ImportBatch) → ((f b).id ≡ b.id) × ((f b).rag_id ≡ b.rag_id))
      → P db
      → P (record db { import_batches = map f db.import_batches })
  pub map_jobs :
      (f : IngestJob → IngestJob) (db : Db)
      → ((j : IngestJob) → ((f j).id ≡ j.id) × ((f j).document_id ≡ j.document_id))
      → P db
      → P (record db { ingest_jobs = map f db.ingest_jobs })

-- The statements that remove a set.
pub record KeepsRemovals (P : Db → Type 0) : Type 0 where
  pub delete_rag_row : (rag_id : ℕ) (db : Db) → P db → P (delete_rag_row rag_id db)
  pub soft_delete_rag : (now rag_id : ℕ) (db : Db) → P db → P (soft_delete_rag now rag_id db)

-- All statements.
pub record IsStable (fold : Text → Text) (P : Db → Type 0) : Type 0 where
  pub rows : KeepsRows P
  pub removals : KeepsRemovals P
  pub insert_rag : (rag : RagSet) (db db' : Db) → insert_rag fold rag db ≡ ok db' → P db → P db'
  pub update_rag_row :
      (rag : RagSet) (db db' : Db) → update_rag_row fold rag db ≡ ok db' → P db → P db'

-- The statements on documents, batches and jobs leave the sets alone.
pub sets-KeepsRows : (Q : List RagSet → Type 0) → KeepsRows (λ db. Q db.rag_sets)
unfolding insert_document insert_batch insert_job delete_document_row
sets-KeepsRows Q = record {
  insert_document = λ doc db db' e h. let (_, made) = guarded integrity_error e in rw (← made) h;
  insert_batch = λ batch db db' e h. let (_, made) = guarded integrity_error e in rw (← made) h;
  insert_job = λ job db db' e h. let (_, made) = guarded integrity_error e in rw (← made) h;
  delete_document_row = λ document_id db h. h;
  map_documents = λ f db same h. h;
  map_batches = λ f db same h. h;
  map_jobs = λ f db same h. h;
}

module _ {P Q : Db → Type 0} where
  -- What keeps both of two properties keeps them together.
  pub both-KeepsRows : KeepsRows P → KeepsRows Q → KeepsRows (λ db. P db × Q db)
  both-KeepsRows p q = record {
    insert_document =
        λ doc db db' e (h, k). (p.insert_document doc db db' e h, q.insert_document doc db db' e k);
    insert_batch =
        λ batch db db' e (h, k). (p.insert_batch batch db db' e h, q.insert_batch batch db db' e k);
    insert_job = λ job db db' e (h, k). (p.insert_job job db db' e h, q.insert_job job db db' e k);
    delete_document_row = λ document_id db (h, k).
        (p.delete_document_row document_id db h, q.delete_document_row document_id db k);
    map_documents = λ f db same (h, k). (p.map_documents f db same h, q.map_documents f db same k);
    map_batches = λ f db same (h, k). (p.map_batches f db same h, q.map_batches f db same k);
    map_jobs = λ f db same (h, k). (p.map_jobs f db same h, q.map_jobs f db same k);
  }

  pub both-KeepsRemovals : KeepsRemovals P → KeepsRemovals Q → KeepsRemovals (λ db. P db × Q db)
  both-KeepsRemovals p q = record {
    delete_rag_row =
        λ rag_id db (h, k). (p.delete_rag_row rag_id db h, q.delete_rag_row rag_id db k);
    soft_delete_rag = λ now rag_id db (h, k).
        (p.soft_delete_rag now rag_id db h, q.soft_delete_rag now rag_id db k);
  }
