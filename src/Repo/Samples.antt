-- ===== src/Repo/Samples.antt =====
-- app/db/repo.py and app/db/models.py: the theorems on a set with one document, beside a set
-- without any.
use rag_ingestion_service.Repo.Isolation.{Reaches, documents_by_ids-visible}
use rag_ingestion_service.Prelude.{
  All, [], arith, codes, contains, nat_eq, none, option_eq, refl, some, text_eq, true, ℕ, ◌∷◌, ◌≡◌,
}
use rag_ingestion_service.Prelude.Filter.{count, filter, any}
use rag_ingestion_service.Models.{Db, RagSet, Document, from_upload, failed, insert_document}
use rag_ingestion_service.Models.Integrity.{IsConsistent, insert_document-IsConsistent}
use rag_ingestion_service.Repo.{
  counts_for, counts_for_many, status_of, documents_of, documents_by_ids,
}
use rag_ingestion_service.Repo.Counts.{status-counts_for, counts_for_many_lem, status_by_documents}

abbrev rag : ℕ → ℕ → RagSet
rag id owner_id = record {
  id = id;
  owner_id = owner_id;
  name = codes "set";
  description = none;
  prompt = none;
  temperature = 200;
  top_k = 5;
  score_threshold = 350;
  icon_key = none;
  created_at = id;
  updated_at = id;
  deleted_at = none;
}

abbrev document : ℕ → ℕ → Document
document id rag_id = record {
  id = id;
  rag_id = rag_id;
  filename = codes "a.pdf";
  size_bytes = 30;
  content_hash = codes "h";
  storage_key = codes "k";
  source_bucket = none;
  origin = from_upload;
  origin_ref = none;
  status = failed;
  error = some (codes "no text");
  chunks_count = 0;
  created_at = 3;
  updated_at = 3;
}

abbrev two_sets : Db
two_sets = record {
  rag_sets = rag 1 7 ∷ rag 2 8 ∷ [];
  import_batches = [];
  documents = [];
  ingest_jobs = [];
}

abbrev with_document : Db
with_document = record two_sets { documents = document 5 1 ∷ [] }

two_sets-IsConsistent : IsConsistent two_sets
unfolding count filter
two_sets-IsConsistent = record {
  rag_ids = λ i. ground arith;
  document_ids = λ i. ground arith;
  batch_ids = λ i. ground arith;
  job_ids = λ i. ground arith;
  contents = λ i h. ground arith;
  checks = (refl, (refl, tt));
  homes = tt;
  batch_homes = tt;
  job_homes = tt;
}

with_document-IsConsistent : IsConsistent with_document
unfolding insert_document any nat_eq
with_document-IsConsistent =
    (insert_document-IsConsistent (document 5 1) two_sets two_sets-IsConsistent with_document
      refl).0

status-counts_for_example :
    status_of (counts_for with_document 1)
    ≡ status_by_documents (documents_of 1 with_document.documents)
status-counts_for_example = status-counts_for with_document 1

counts_for_many_lem_example :
    counts_for_many with_document (1 ∷ 2 ∷ [])
    ≡ (1, counts_for with_document 1) ∷ (2, counts_for with_document 2) ∷ []
counts_for_many_lem_example = counts_for_many_lem with_document (1 ∷ 2 ∷ [])

documents_by_ids-visible_example :
    All
      (λ d. (contains (5 ∷ 6 ∷ []) d.id ≡ true) × Reaches with_document 7 d)
      (documents_by_ids with_document (5 ∷ 6 ∷ []) 7)
documents_by_ids-visible_example = documents_by_ids-visible with_document (5 ∷ 6 ∷ []) 7
