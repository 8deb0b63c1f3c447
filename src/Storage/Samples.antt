-- ===== src/Storage/Samples.antt =====
-- app/storage/seaweed.py: the theorems on a listing in two pages and an upload in two chunks.
use rag_ingestion_service.Prelude.{
  Bool, ◌∙◌, ◌-◌, ◌/◌, ltb, false, List, Text, [], arith, codes, nat_eq, option_eq, some, take,
  text_eq, ℕ, ◌∷◌, ◌≡◌, ap, sym, contains, true, refl,
}
use rag_ingestion_service.Storage.{flatten, Item, collect_pages, stream_upload, S3, bucket_exists}
use rag_ingestion_service.Search.{OpenSearch}
use rag_ingestion_service.Search.Calibration.{Floats, Probes}
use rag_ingestion_service.Api.Startup.{Process, CreatesIndex, lifespan, lifespan_lem}
use rag_ingestion_service.Prelude.Result.{err, ok, Result}
use rag_ingestion_service.Errors.{over_limit, client_error, Exception}
use rag_ingestion_service.Storage.Listing.{collect_pages-take, objects_of}
use rag_ingestion_service.Storage.Upload.{stream_upload_lem}
use rag_ingestion_service.Storage.Memory.{memory}
use rag_ingestion_service.Exec.{raise, pure}
use rag_ingestion_service.Settings.{default_settings}
use rag_ingestion_service.Storage.Buckets.{Creates, ensure_buckets}

abbrev item : Text → ℕ → Item
item key size = record { item_key = key; item_size = size; item_etag = some (codes "\"e\"") }

abbrev pages : List (List Item)
pages =
    (item (codes "a.pdf") 3 ∷ item (codes "d/") 0 ∷ [])
    ∷ (item (codes "b.pdf") 4 ∷ item (codes "c.pdf") 5 ∷ [])
    ∷ []

collect_pages-take_example : collect_pages 2 pages ≡ take 2 (objects_of (flatten pages))
collect_pages-take_example = collect_pages-take 2 pages (omega arith)

stream_upload_lem_example :
    stream_upload memory (λ t. t) (codes "b") (codes "k") (codes "ab" ∷ codes "cd" ∷ []) 3 []
    ≡ (err (over_limit 3), [])
unfolding mathlib.Core.List.flatten
stream_upload_lem_example =
    stream_upload_lem memory (λ t. t) (codes "b") (codes "k") (codes "ab" ∷ codes "cd" ∷ []) 3 []

abbrev answer : Bool → Result Exception (Unit {0})
answer true = ok tt
answer false = err client_error

-- A service that keeps the names of its buckets, and no objects.
abbrev names_only : S3 (List Text)
names_only = record {
  put_object = λ bucket key body. raise client_error;
  upload_fileobj = λ bucket key body. raise client_error;
  get_object = λ bucket key. raise client_error;
  generate_presigned_url = λ bucket key ttl s. err client_error;
  head_object = λ bucket key s. err client_error;
  head_bucket = λ bucket s. answer (contains s bucket);
  create_bucket = λ bucket s. (ok tt, bucket ∷ s);
  list_buckets = λ s. ok tt;
  copy_object = λ src_bucket src_key dst_bucket dst_key. raise client_error;
  delete_object = λ bucket key. pure tt;
  delete_objects = λ bucket keys. pure tt;
  list_pages = λ bucket prefix recursive. pure [];
}

names_only-has :
    (bucket : Text) (s : List Text) → bucket_exists names_only bucket s ≡ contains s bucket
unfolding bucket_exists
names_only-has bucket s = go (contains s bucket)
  where
    go : (b : Bool) → (elim (answer b) [ ok _ ↦ true | err _ ↦ false ]) ≡ b
    go true = refl
    go false = refl

names_only-Creates : Creates names_only
names_only-Creates = record {
  made = λ bucket s s' h.
      let grown : bucket ∷ s ≡ s' = ap (λ (p : Result Exception (Unit {0}) × List Text). p.1) h in
      names_only-has bucket s' ∙ rw (← grown) (ground arith);
  kept = λ bucket other s h.
      let there : contains s other ≡ true = sym (names_only-has other s) ∙ h in
      names_only-has other (bucket ∷ s) ∙ ground arith;
}

abbrev made_buckets : List Text
made_buckets = codes "rag-staging" ∷ codes "rag-icons" ∷ codes "rag-docs" ∷ []

-- An index that is there or not, and holds nothing.
abbrev no_chunks : OpenSearch Bool
no_chunks = record {
  index_exists = λ there. (ok there, there);
  create_index = λ there. (ok tt, true);
  search_hashes = λ rag_id document_id. pure [];
  bulk = λ actions. pure (0, 0);
  refresh = pure tt;
  delete_by_query = λ rag_id document_id. pure 0;
}

abbrev whole : Floats ℕ
whole = record {
  one = 1;
  two = 2;
  sub = λ a b. a - b;
  div = λ a b. ok (a / b);
  abs = λ a. a;
  exceeds = λ a b. ltb b a;
}

abbrev nothing_found : Probes Bool ℕ
nothing_found = record { search_any = pure []; search_near = λ vector. pure [] }

no_chunks-CreatesIndex : CreatesIndex no_chunks nothing_found (λ there. there)
no_chunks-CreatesIndex = record {
  asked = λ there. refl;
  made = λ there there' e. cc;
  any_kept = λ there h. h;
  near_kept = λ vector there h. h;
}

abbrev fresh : Process (List Text) Bool
fresh = record { store = []; index = false; ready = false }

abbrev started : Process (List Text) Bool
started = record { store = made_buckets; index = true; ready = true }

lifespan_lem_example :
    (started.index ≡ true)
    × (bucket_exists names_only (codes "rag-docs") started.store ≡ true)
    × (bucket_exists names_only (codes "rag-icons") started.store ≡ true)
    × (bucket_exists names_only (codes "rag-staging") started.store ≡ true)
unfolding lifespan ensure_buckets bucket_exists text_eq rag_ingestion_service.Search.ensure_index
    rag_ingestion_service.Search.Calibration.verify_cosine_calibration
lifespan_lem_example =
    lifespan_lem (λ t. t) names_only no_chunks whole nothing_found 0 default_settings
      (λ there. there) names_only-Creates no_chunks-CreatesIndex fresh started (ok tt) refl refl
      refl
