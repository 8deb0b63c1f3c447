-- ===== src/Models/Consistency.antt =====
-- app/db/models.py: the tables stay consistent under all statements of the service.
use rag_ingestion_service.Prelude.{
  All, All-imp, Bool, List, Text, [], ap, arith, map, nat_eq, not, option_eq, text_eq, true, ℕ,
  ◌==◌, ◌∙◌, ◌∷◌, ◌≡◌,
}
use rag_ingestion_service.Prelude.Filter.{filter, any}
use rag_ingestion_service.Models.{
  Db, ImportBatch, Document, IngestJob, has_content, delete_document_row,
}
use rag_ingestion_service.Models.Integrity.{
  IsConsistent, any-filter_ne, count-filter-le, All-kept, insert_document-IsConsistent,
  delete_rag_row-IsConsistent,
}
use rag_ingestion_service.Models.Stable.{SameKeys, IsStable}
use rag_ingestion_service.Models.Writes.{
  count-map, any-map, All-map, insert_rag-IsConsistent, update_rag_row-IsConsistent,
  insert_batch-IsConsistent, insert_job-IsConsistent, soft_delete_rag-IsConsistent,
}

jobs_left :
    (document_id : ℕ) (docs : List Document) (jobs : List IngestJob)
    → All (λ j. any (λ d. d.id == j.document_id) docs ≡ true) jobs
    → All
        (λ j.
          any (λ d. d.id == j.document_id) (filter (λ d. not (d.id == document_id)) docs) ≡ true)
        (filter (λ j. not (j.document_id == document_id)) jobs)
unfolding filter
jobs_left document_id docs [] h = tt
jobs_left document_id docs (j ∷ jobs) (home, h) = ground (
  arith,
  jobs_left document_id docs jobs h,
  any-filter_ne (λ (d : Document). d.id) document_id j.document_id docs,
)

delete_document_row-IsConsistent :
    (document_id : ℕ) (db : Db)
    → IsConsistent db
    → IsConsistent (delete_document_row document_id db)
unfolding delete_document_row
delete_document_row-IsConsistent document_id db h =
    let kept : Document → Bool = λ d. not (d.id == document_id) in
    record {
      rag_ids = h.rag_ids;
      document_ids = λ i. omega (
        arith,
        count-filter-le (λ (d : Document). d.id == i) kept db.documents,
        h.document_ids i,
      );
      batch_ids = h.batch_ids;
      job_ids = λ i. omega (
        arith,
        count-filter-le (λ (j : IngestJob). j.id == i) (λ j. not (j.document_id == document_id))
            db.ingest_jobs,
        h.job_ids i,
      );
      contents =
          λ i t. omega (arith, count-filter-le (has_content i t) kept db.documents, h.contents i t);
      checks = h.checks;
      homes = All-kept _ kept db.documents h.homes;
      batch_homes = h.batch_homes;
      job_homes = jobs_left document_id db.documents db.ingest_jobs h.job_homes;
    }

map_documents-IsConsistent :
    (f : Document → Document) (db : Db)
    → ((d : Document) → SameKeys d (f d))
    → IsConsistent db
    → IsConsistent (record db { documents = map f db.documents })
map_documents-IsConsistent f db same h =
    let ids : (i : ℕ) (d : Document) → ((f d).id == i) ≡ (d.id == i) =
      λ i d. ap (λ k. k == i) (same d).id in
    let rows : (i : ℕ) (t : Text) (d : Document) → has_content i t (f d) ≡ has_content i t d =
      λ i t d. rw ((same d).rag_id, (same d).content_hash) in
    record {
      rag_ids = h.rag_ids;
      document_ids = λ i.
          rw (count-map f (λ (d : Document). d.id == i) db.documents (ids i)) (h.document_ids i);
      batch_ids = h.batch_ids;
      job_ids = h.job_ids;
      contents = λ i t. rw (count-map f (has_content i t) db.documents (rows i t)) (h.contents i t);
      checks = h.checks;
      homes = All-map f _ db.documents (λ d e. rw ((same d).rag_id) e) h.homes;
      batch_homes = h.batch_homes;
      job_homes =
          All-imp _ _ db.ingest_jobs
            (λ j e.
              any-map f (λ (d : Document). d.id == j.document_id) db.documents (ids j.document_id)
              ∙ e)
            h.job_homes;
    }

map_batches-IsConsistent :
    (f : ImportBatch → ImportBatch) (db : Db)
    → ((b : ImportBatch) → ((f b).id ≡ b.id) × ((f b).rag_id ≡ b.rag_id))
    → IsConsistent db
    → IsConsistent (record db { import_batches = map f db.import_batches })
map_batches-IsConsistent f db same h = record {
  rag_ids = h.rag_ids;
  document_ids = h.document_ids;
  job_ids = h.job_ids;
  batch_ids = λ i.
      rw
        (count-map f (λ (b : ImportBatch). b.id == i) db.import_batches
          (λ b. ap (λ k. k == i) (same b).0))
        (h.batch_ids i);
  contents = h.contents;
  checks = h.checks;
  homes = h.homes;
  batch_homes = All-map f _ db.import_batches (λ b e. rw ((same b).1) e) h.batch_homes;
  job_homes = h.job_homes;
}

map_jobs-IsConsistent :
    (f : IngestJob → IngestJob) (db : Db)
    → ((j : IngestJob) → ((f j).id ≡ j.id) × ((f j).document_id ≡ j.document_id))
    → IsConsistent db
    → IsConsistent (record db { ingest_jobs = map f db.ingest_jobs })
map_jobs-IsConsistent f db same h = record {
  rag_ids = h.rag_ids;
  document_ids = h.document_ids;
  batch_ids = h.batch_ids;
  job_ids = λ i.
      rw
        (count-map f (λ (j : IngestJob). j.id == i) db.ingest_jobs
          (λ j. ap (λ k. k == i) (same j).0))
        (h.job_ids i);
  contents = h.contents;
  checks = h.checks;
  homes = h.homes;
  batch_homes = h.batch_homes;
  job_homes = All-map f _ db.ingest_jobs (λ j e. rw ((same j).1) e) h.job_homes;
}

-- Every statement of the service keeps the tables consistent.
pub IsConsistent-IsStable : (fold : Text → Text) → IsStable fold IsConsistent
IsConsistent-IsStable fold = record {
  rows = record {
    insert_document = λ doc db db' e h. (insert_document-IsConsistent doc db h db' e).0;
    insert_batch = insert_batch-IsConsistent;
    insert_job = insert_job-IsConsistent;
    delete_document_row = delete_document_row-IsConsistent;
    map_documents = map_documents-IsConsistent;
    map_batches = map_batches-IsConsistent;
    map_jobs = map_jobs-IsConsistent;
  };
  removals = record {
    delete_rag_row = λ rag_id db h. (delete_rag_row-IsConsistent rag_id db h).0;
    soft_delete_rag = soft_delete_rag-IsConsistent;
  };
  insert_rag = insert_rag-IsConsistent fold;
  update_rag_row = update_rag_row-IsConsistent fold;
}
