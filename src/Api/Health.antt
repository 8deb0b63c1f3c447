-- ===== src/Api/Health.antt =====
-- app/api/health.py: the outcomes of the probes are arguments; an exception of a probe counts as down.
use rag_ingestion_service.Prelude.{
  Bool, Text, codes, false, if◌then◌else◌, nat_eq, option_eq, text_eq, true, ℕ, ◌&&◌, ◌==◌,
}
use rag_ingestion_service.Prelude.Result.{Result, ok, err}
use rag_ingestion_service.Errors.{Exception}
use rag_ingestion_service.Docling.Wait.{HttpError}
use rag_ingestion_service.Storage.{S3}
use rag_ingestion_service.Storage.Buckets.{healthy}

pub record HealthResponse : Type 0 where
  pub status : Text
  pub docling : Bool
  pub opensearch : Bool
  pub postgres : Bool
  pub redis : Bool
  pub storage : Bool
  pub model : Text

-- `_docling_ok`, of the status of the answer
unfoldable pub docling_ok : Result HttpError ℕ → Bool
docling_ok (ok status_code) = status_code == 200
docling_ok (err _) = false

-- A ping that may answer no.
abbrev pub ping_ok : Result Exception Bool → Bool
ping_ok (ok there) = there
ping_ok (err _) = false

abbrev pub query_ok : Result Exception (Unit {0}) → Bool
query_ok (ok _) = true
query_ok (err _) = false

unfoldable pub health :
    {S : Type 0} (s3 : S3 S) (store : S) (embed_model : Text)
    → Result HttpError ℕ
    → Result Exception Bool
    → Result Exception (Unit {0})
    → Result Exception Bool
    → HealthResponse
unfolding docling_ok
health s3 store embed_model docling opensearch postgres redis =
    let storage_ok = healthy s3 store in
    let all_ok =
      docling_ok docling
      && ping_ok opensearch
      && query_ok postgres
      && ping_ok redis
      && storage_ok in
    record {
      status = if all_ok then codes "ok" else codes "degraded";
      docling = docling_ok docling;
      opensearch = ping_ok opensearch;
      postgres = query_ok postgres;
      redis = ping_ok redis;
      storage = storage_ok;
      model = embed_model;
    }
