-- ===== src/Models/Integrity.antt =====
-- app/db/models.py: the constraints of the tables, as an invariant that the writes keep.
use rag_ingestion_service.Prelude.{
  All, All-append, All-imp, Bool, Bool-cases, List, Text, [], arith, false, if_ind, if◌then◌else◌,
  inl, inr, nat_eq, not, option_eq, refl, sym, text_eq, true, ℕ, ◌++◌, ◌+◌, ◌==◌, ◌||◌, ◌∷◌, ◌≡◌,
  ◌≢◌, ◌≤◌,
}
use rag_ingestion_service.Prelude.Filter.{filter, any, count, All-filter}
use rag_ingestion_service.Prelude.Result.{Result, ok}
use rag_ingestion_service.Errors.{Exception}
use rag_ingestion_service.Models.{
  rag_checks, ImportBatch, RagSet, Document, Db, has_content, insert_document, delete_rag_row,
}

module _ {A : Type 0} (p : A → Bool) where
  pub count-snoc :
      (rows : List A) (a : A) → count p (rows ++ a ∷ []) ≡ count p rows + (if p a then 1 else 0)
  unfolding count filter
  count-snoc [] a = ground arith
  count-snoc (x ∷ rows) a = ground (arith, count-snoc rows a)

  count-none : (rows : List A) → any p rows ≡ false → count p rows ≡ 0
  unfolding count filter any
  count-none [] h = refl
  count-none (x ∷ rows) h = ground (arith, count-none rows)

  pub count-filter-le : (q : A → Bool) (rows : List A) → count p (filter q rows) ≤ count p rows
  unfolding count filter
  count-filter-le q [] = omega arith
  count-filter-le q (x ∷ rows) = ground (arith, count-filter-le q rows)

  pub any-snoc : (rows : List A) (a : A) → any p (rows ++ a ∷ []) ≡ (any p rows || p a)
  unfolding any
  any-snoc [] a = ground arith
  any-snoc (x ∷ rows) a = ground (arith, any-snoc rows a)

-- The checks of the sets hold, keys are unique, a set holds a content once, no document and no batch
-- is without its set, and no job without its document.
pub record IsConsistent (db : Db) : Type 0 where
  pub rag_ids : (i : ℕ) → count (λ r. r.id == i) db.rag_sets ≤ 1
  pub document_ids : (i : ℕ) → count (λ d. d.id == i) db.documents ≤ 1
  pub batch_ids : (i : ℕ) → count (λ b. b.id == i) db.import_batches ≤ 1
  pub job_ids : (i : ℕ) → count (λ j. j.id == i) db.ingest_jobs ≤ 1
  pub contents : (i : ℕ) (h : Text) → count (has_content i h) db.documents ≤ 1
  pub checks : All (λ r. rag_checks r ≡ true) db.rag_sets
  pub homes : All (λ d. any (λ r. r.id == d.rag_id) db.rag_sets ≡ true) db.documents
  pub batch_homes : All (λ b. any (λ r. r.id == b.rag_id) db.rag_sets ≡ true) db.import_batches
  pub job_homes : All (λ j. any (λ d. d.id == j.document_id) db.documents ≡ true) db.ingest_jobs

pub one_more :
    {A : Type 0} (key : A → ℕ) (rows : List A) (a : A)
    → ((i : ℕ) → count (λ x. key x == i) rows ≤ 1)
    → any (λ x. key x == key a) rows ≡ false
    → (i : ℕ) → count (λ x. key x == i) (rows ++ a ∷ []) ≤ 1
one_more key rows a h fresh i = elim (nat_eq.dec i (key a)) [
  | yes e ↦ rw e (
      ground (
        arith,
        count-snoc (λ x. key x == key a) rows a,
        count-none (λ x. key x == key a) rows fresh,
      ))
  | no n ↦ ground (arith, count-snoc (λ x. key x == i) rows a, h i)
]

module _ (doc : Document) (db : Db) (h : IsConsistent db) where
  new_content :
      any (has_content doc.rag_id doc.content_hash) db.documents ≡ false
      → (i : ℕ) (t : Text) → count (has_content i t) (db.documents ++ doc ∷ []) ≤ 1
  new_content fresh i t = elim (Bool-cases (has_content i t doc)) [
    | inl same ↦
        let p : i ≡ doc.rag_id = ground arith in
        let q : t ≡ doc.content_hash = ground arith in
        rw (p, q)
          (ground (
            arith,
            count-snoc (has_content doc.rag_id doc.content_hash) db.documents doc,
            count-none (has_content doc.rag_id doc.content_hash) db.documents fresh,
          ))
    | inr other ↦ ground (arith, count-snoc (has_content i t) db.documents doc, h.contents i t)
  ]

  -- A document that is written has a new key, a content that its set lacks, and a set that is
  -- there; the tables stay consistent, and the rest of them is unchanged.
  pub insert_document-IsConsistent :
      (db' : Db)
      → insert_document doc db ≡ ok db'
      → IsConsistent db' × (db' ≡ record db { documents = db.documents ++ doc ∷ [] })
  unfolding insert_document
  insert_document-IsConsistent db' =
      let used = any (λ d. d.id == doc.id) db.documents in
      let held = any (has_content doc.rag_id doc.content_hash) db.documents in
      let housed = any (λ r. r.id == doc.rag_id) db.rag_sets in
      if_ind
        (λ (r : Result Exception Db).
          r ≡ ok db'
          → IsConsistent db' × (db' ≡ record db { documents = db.documents ++ doc ∷ [] }))
        (used || held || not housed) (λ _ e. cc)
        λ free e.
          let made : record db { documents = db.documents ++ doc ∷ [] } ≡ db' = cc in
          (
            rw (← made) (record {
              rag_ids = h.rag_ids;
              document_ids = one_more (λ d. d.id) db.documents doc h.document_ids (ground arith);
              batch_ids = h.batch_ids;
              job_ids = h.job_ids;
              contents = new_content (ground arith);
              checks = h.checks;
              homes = All-append _ db.documents _ h.homes (ground arith, tt);
              batch_homes = h.batch_homes;
              job_homes =
                  All-imp _ _ db.ingest_jobs
                    (λ j e. ground (arith, any-snoc (λ d. d.id == j.document_id) db.documents doc))
                    h.job_homes;
            }),
            sym made,
          )

pub any-filter_ne :
    {A : Type 0} (key : A → ℕ) (removed other : ℕ) (rows : List A)
    → other ≢ removed
    → any (λ a. key a == other) rows ≡ true
    → any (λ a. key a == other) (filter (λ a. not (key a == removed)) rows) ≡ true
unfolding any filter
any-filter_ne key removed other [] ne h = cc
any-filter_ne key removed other (r ∷ rows) ne h =
    ground (arith, any-filter_ne key removed other rows ne)

pub All-kept :
    {A : Type 0} (P : A → Type 0) (p : A → Bool) (xs : List A) → All P xs → All P (filter p xs)
unfolding filter
All-kept P p [] h = tt
All-kept P p (x ∷ xs) (q, h) =
    if_ind (All P) (p x) (λ _. (q, All-kept P p xs h)) (λ _. All-kept P p xs h)

batch_homes_left :
    (rag_id : ℕ) (sets : List RagSet) (batches : List ImportBatch)
    → All (λ b. any (λ r. r.id == b.rag_id) sets ≡ true) batches
    → All
        (λ b. any (λ r. r.id == b.rag_id) (filter (λ r. not (r.id == rag_id)) sets) ≡ true)
        (filter (λ b. not (b.rag_id == rag_id)) batches)
unfolding filter
batch_homes_left rag_id sets [] h = tt
batch_homes_left rag_id sets (b ∷ batches) (home, h) = ground (
  arith,
  batch_homes_left rag_id sets batches h,
  any-filter_ne (λ (r : RagSet). r.id) rag_id b.rag_id sets,
)

homes_left :
    (rag_id : ℕ) (sets : List RagSet) (docs : List Document)
    → All (λ d. any (λ r. r.id == d.rag_id) sets ≡ true) docs
    → All
        (λ d. any (λ r. r.id == d.rag_id) (filter (λ r. not (r.id == rag_id)) sets) ≡ true)
        (filter (λ d. not (d.rag_id == rag_id)) docs)
unfolding filter
homes_left rag_id sets [] h = tt
homes_left rag_id sets (d ∷ docs) (home, h) = ground (
  arith,
  homes_left rag_id sets docs h,
  any-filter_ne (λ (r : RagSet). r.id) rag_id d.rag_id sets,
)

-- Deleting a set takes its documents along: the tables stay consistent, and no document of
-- the set and no set of that key is left.
pub delete_rag_row-IsConsistent :
    (rag_id : ℕ) (db : Db)
    → IsConsistent db
    → IsConsistent (delete_rag_row rag_id db)
      × All (λ d. d.rag_id ≢ rag_id) (delete_rag_row rag_id db).documents
      × All (λ r. r.id ≢ rag_id) (delete_rag_row rag_id db).rag_sets
unfolding delete_rag_row
delete_rag_row-IsConsistent rag_id db h = (
  record {
    rag_ids = λ i. omega (
      arith,
      count-filter-le (λ r. r.id == i) (λ r. not (r.id == rag_id)) db.rag_sets,
      h.rag_ids i,
    );
    document_ids = λ i. omega (
      arith,
      count-filter-le (λ d. d.id == i) (λ d. not (d.rag_id == rag_id)) db.documents,
      h.document_ids i,
    );
    batch_ids = λ i. omega (
      arith,
      count-filter-le (λ b. b.id == i) (λ b. not (b.rag_id == rag_id)) db.import_batches,
      h.batch_ids i,
    );
    job_ids = λ i. omega (
      arith,
      count-filter-le (λ j. j.id == i)
          (λ j.
            any (λ d. d.id == j.document_id) (filter (λ d. not (d.rag_id == rag_id)) db.documents))
          db.ingest_jobs,
      h.job_ids i,
    );
    contents = λ i t. omega (
      arith,
      count-filter-le (has_content i t) (λ d. not (d.rag_id == rag_id)) db.documents,
      h.contents i t,
    );
    checks = All-kept _ (λ r. not (r.id == rag_id)) db.rag_sets h.checks;
    homes = homes_left rag_id db.rag_sets db.documents h.homes;
    batch_homes = batch_homes_left rag_id db.rag_sets db.import_batches h.batch_homes;
    job_homes =
        All-filter
          (λ j.
            any (λ d. d.id == j.document_id) (filter (λ d. not (d.rag_id == rag_id)) db.documents))
          db.ingest_jobs;
  },
  All-imp _ _ _ (λ d e. ground arith) (All-filter (λ d. not (d.rag_id == rag_id)) db.documents),
  All-imp _ _ _ (λ r e. ground arith) (All-filter (λ r. not (r.id == rag_id)) db.rag_sets),
)
