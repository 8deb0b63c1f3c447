-- ===== src/Models/Writes.antt =====
-- app/db/models.py: every statement of the service keeps the tables consistent.
use rag_ingestion_service.Prelude.{
  some, All-append, ◌++◌, Text, All, All-imp, Bool, List, [], ap, arith, map, nat_eq, option_eq,
  refl, text_eq, true, ℕ, ◌==◌, ◌∙◌, ◌∷◌, ◌≡◌, if◌then◌else◌, false,
}
use rag_ingestion_service.Models.Integrity.{any-snoc, one_more, IsConsistent}
use rag_ingestion_service.Errors.{Exception, integrity_error}
use rag_ingestion_service.Models.{
  IngestJob, insert_rag, ok, update_rag_row, insert_batch, insert_job, Db, RagSet, ImportBatch,
  Document, rag_checks,
}
use rag_ingestion_service.Repo.{soft_delete_rag}
use rag_ingestion_service.Prelude.Filter.{filter, any, count}
use rag_ingestion_service.Prelude.Result.{err}

module _ {A : Type 0} (f : A → A) where
  pub count-map :
      (p : A → Bool) (xs : List A) → ((x : A) → p (f x) ≡ p x) → count p (map f xs) ≡ count p xs
  unfolding count filter
  count-map p [] same = refl
  count-map p (x ∷ xs) same = ground (arith, same x, count-map p xs same)

  pub any-map :
      (p : A → Bool) (xs : List A) → ((x : A) → p (f x) ≡ p x) → any p (map f xs) ≡ any p xs
  unfolding any
  any-map p [] same = refl
  any-map p (x ∷ xs) same = rw (same x, any-map p xs same)

  pub All-map :
      (P : A → Type 0) (xs : List A) → ((x : A) → P x → P (f x)) → All P xs → All P (map f xs)
  All-map P [] keep h = tt
  All-map P (x ∷ xs) keep (p, h) = (keep x p, All-map P xs keep h)

module _ (sets sets' : List RagSet)
    (same : (i : ℕ) → any (λ r. r.id == i) sets ≡ true → any (λ r. r.id == i) sets' ≡ true) where
  -- Where no set goes away, no row loses its set.
  still_home :
      {A : Type 0} (rag_id : A → ℕ) (rows : List A)
      → All (λ a. any (λ r. r.id == rag_id a) sets ≡ true) rows
      → All (λ a. any (λ r. r.id == rag_id a) sets' ≡ true) rows
  still_home rag_id rows = All-imp _ _ rows (λ a. same (rag_id a))

-- A write that is guarded and returns has passed its guard.
pub guarded :
    {guard : Bool} {db db' : Db} (e : Exception)
    → (if guard then err e else ok db) ≡ ok db'
    → (guard ≡ false) × (db ≡ db')
guarded {guard = true} e h = cc
guarded {guard = false} e h = (refl, cc)

-- New values of a set, which has its checks and keeps its key.
map_sets :
    (f : RagSet → RagSet) (db : Db)
    → ((r : RagSet) → (f r).id ≡ r.id)
    → ((r : RagSet) → rag_checks r ≡ true → rag_checks (f r) ≡ true)
    → IsConsistent db
    → IsConsistent (record db { rag_sets = map f db.rag_sets })
map_sets f db same checked h =
    let keys : (i : ℕ) (r : RagSet) → ((f r).id == i) ≡ (r.id == i) =
      λ i r. ap (λ k. k == i) (same r) in
    let home : (i : ℕ)
        → any (λ r. r.id == i) db.rag_sets ≡ true
        → any (λ r. r.id == i) (map f db.rag_sets) ≡ true =
      λ i e. any-map f (λ (r : RagSet). r.id == i) db.rag_sets (keys i) ∙ e in
    record {
      rag_ids =
          λ i. rw (count-map f (λ (r : RagSet). r.id == i) db.rag_sets (keys i)) (h.rag_ids i);
      document_ids = h.document_ids;
      batch_ids = h.batch_ids;
      job_ids = h.job_ids;
      contents = h.contents;
      checks = All-map f _ db.rag_sets checked h.checks;
      homes = still_home db.rag_sets _ home (λ (d : Document). d.rag_id) db.documents h.homes;
      batch_homes =
          still_home db.rag_sets _ home (λ (b : ImportBatch). b.rag_id) db.import_batches
            h.batch_homes;
      job_homes = h.job_homes;
    }

pub soft_delete_rag-IsConsistent :
    (now rag_id : ℕ) (db : Db) → IsConsistent db → IsConsistent (soft_delete_rag now rag_id db)
unfolding soft_delete_rag
soft_delete_rag-IsConsistent now rag_id db =
    map_sets
      (λ r. if r.id == rag_id then record r { deleted_at = some now; updated_at = now } else r) db
      (λ r. ground arith) (λ r e. ground arith)

module _ (fold : Text → Text) where
  pub update_rag_row-IsConsistent :
      (rag : RagSet) (db db' : Db)
      → update_rag_row fold rag db ≡ ok db'
      → IsConsistent db
      → IsConsistent db'
  unfolding update_rag_row
  update_rag_row-IsConsistent rag db db' e h =
      let (free, made) = guarded integrity_error e in
      rw (← made) (
        map_sets (λ r. if r.id == rag.id then rag else r) db (λ r. ground arith)
          (λ r c. ground arith) h)

  pub insert_rag-IsConsistent :
      (rag : RagSet) (db db' : Db)
      → insert_rag fold rag db ≡ ok db'
      → IsConsistent db
      → IsConsistent db'
  unfolding insert_rag
  insert_rag-IsConsistent rag db db' e h =
      let (free, made) = guarded integrity_error e in
      let home : (i : ℕ)
          → any (λ r. r.id == i) db.rag_sets ≡ true
          → any (λ r. r.id == i) (db.rag_sets ++ rag ∷ []) ≡ true =
        λ i e. ground (arith, any-snoc (λ (r : RagSet). r.id == i) db.rag_sets rag) in
      rw (← made) (record {
        rag_ids = one_more (λ (r : RagSet). r.id) db.rag_sets rag h.rag_ids (ground arith);
        document_ids = h.document_ids;
        batch_ids = h.batch_ids;
        job_ids = h.job_ids;
        contents = h.contents;
        checks = All-append _ db.rag_sets _ h.checks (ground arith, tt);
        homes = still_home db.rag_sets _ home (λ (d : Document). d.rag_id) db.documents h.homes;
        batch_homes =
            still_home db.rag_sets _ home (λ (b : ImportBatch). b.rag_id) db.import_batches
              h.batch_homes;
        job_homes = h.job_homes;
      })

pub insert_batch-IsConsistent :
    (batch : ImportBatch) (db db' : Db)
    → insert_batch batch db ≡ ok db'
    → IsConsistent db
    → IsConsistent db'
unfolding insert_batch
insert_batch-IsConsistent batch db db' e h =
    let (free, made) = guarded integrity_error e in
    rw (← made) (record {
      rag_ids = h.rag_ids;
      document_ids = h.document_ids;
      job_ids = h.job_ids;
      batch_ids =
          one_more (λ (b : ImportBatch). b.id) db.import_batches batch h.batch_ids (ground arith);
      contents = h.contents;
      checks = h.checks;
      homes = h.homes;
      batch_homes = All-append _ db.import_batches _ h.batch_homes (ground arith, tt);
      job_homes = h.job_homes;
    })

pub insert_job-IsConsistent :
    (job : IngestJob) (db db' : Db)
    → insert_job job db ≡ ok db'
    → IsConsistent db
    → IsConsistent db'
unfolding insert_job
insert_job-IsConsistent job db db' e h =
    let (free, made) = guarded integrity_error e in
    rw (← made) (record {
      rag_ids = h.rag_ids;
      document_ids = h.document_ids;
      batch_ids = h.batch_ids;
      job_ids = one_more (λ (j : IngestJob). j.id) db.ingest_jobs job h.job_ids (ground arith);
      contents = h.contents;
      checks = h.checks;
      homes = h.homes;
      batch_homes = h.batch_homes;
      job_homes = All-append _ db.ingest_jobs _ h.job_homes (ground arith, tt);
    })
