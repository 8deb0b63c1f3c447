-- ===== src/Api/Schemas.antt =====
-- app/schemas/rags.py, and the requests of app/api/admin.py and app/api/embed.py: the limits that
-- pydantic checks before a handler runs. Floats are in thousandths and not negative.
use rag_ingestion_service.Prelude.{
  Bool, List, Option, Text, is_empty, leb, length, nat_eq, none, not, option_eq, some, text_eq,
  true, ℕ, ◌&&◌,
}
use rag_ingestion_service.Settings.{Settings}
use rag_ingestion_service.Api.Remote.{DocumentsFromBucketIn}
use rag_ingestion_service.Api.Sets.{RagCreate, RagFromBucketIn}
use rag_ingestion_service.Api.Updates.{RagUpdate}

-- `Field(min_length=…, max_length=…)` and `Field(ge=…, le=…)`
abbrev pub between : ℕ → ℕ → ℕ → Bool
between lo hi n = leb lo n && leb n hi

abbrev pub within : {A : Type 0} → ℕ → Option (List A) → Bool
within limit none = true
within limit (some t) = leb (length t) limit

abbrev pub passes : {A : Type 0} → (A → Bool) → Option (Option A) → Bool
passes p none = true
passes p (some none) = true
passes p (some (some v)) = p v

unfoldable pub create_passes : Settings → RagCreate → Bool
create_passes s payload =
    between 1 200 (length payload.name)
    && within 2000 payload.description
    && within s.rag_prompt_max_chars payload.prompt
    && leb payload.temperature 1000
    && between 1 s.rag_top_k_max payload.top_k
    && leb payload.score_threshold 1000

unfoldable pub update_passes : Settings → RagUpdate → Bool
update_passes s payload =
    passes (λ t. between 1 200 (length t)) payload.name
    && passes (λ t. leb (length t) 2000) payload.description
    && passes (λ t. leb (length t) s.rag_prompt_max_chars) payload.prompt
    && passes (λ n. leb n 1000) payload.temperature
    && passes (between 1 s.rag_top_k_max) payload.top_k
    && passes (λ n. leb n 1000) payload.score_threshold

unfoldable pub from_bucket_passes : Settings → RagFromBucketIn → Bool
unfolding create_passes
from_bucket_passes s payload =
    create_passes s payload.create
    && between 1 255 (length payload.bucket)
    && leb (length payload.prefix) 1024
    && leb (length payload.extensions) 32

-- `_exactly_one_mode`: it raises where `bool(keys)` is the same as "a prefix is given".
abbrev pub exactly_one_mode : DocumentsFromBucketIn → Bool
exactly_one_mode payload = elim payload.prefix [
  | none ↦ not (is_empty payload.keys)
  | some _ ↦ is_empty payload.keys
]

unfoldable pub documents_from_bucket_passes : DocumentsFromBucketIn → Bool
documents_from_bucket_passes payload =
    between 1 255 (length payload.bucket)
    && leb (length payload.keys) 500
    && within 1024 payload.prefix
    && leb (length payload.extensions) 32
    && exactly_one_mode payload

-- `DocumentLookupIn`, `EmbedRequest` and `S3ImportRequest`
unfoldable pub lookup_passes : List ℕ → Bool
lookup_passes document_ids = between 1 100 (length document_ids)

unfoldable pub embed_passes : List Text → Bool
embed_passes texts = between 1 256 (length texts)

unfoldable pub prefix_passes : Text → Bool
prefix_passes prefix = between 1 512 (length prefix)
