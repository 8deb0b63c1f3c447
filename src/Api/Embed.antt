-- ===== src/Api/Embed.antt =====
-- app/api/embed.py: the embedding endpoint, and app/embeddings/http.py: the embedder that asks it. `E` is
-- what the embedders of the process raise.
use rag_ingestion_service.Prelude.{List, Option, Text, [], map, none, some, if◌then◌else◌, ℕ, not}
use rag_ingestion_service.Prelude.Result.{Result, ok, err, ◌>>=◌}
use rag_ingestion_service.Docling.Wait.{HttpError, status_error}
use rag_ingestion_service.Embeddings.{EmbeddingResult, EmbedError, embed}
use rag_ingestion_service.Api.Schemas.{embed_passes}

pub data Pool : Type 0 where
  query_pool ingest_pool : Pool

pub record EmbedRequest : Type 0 where
  pub texts : List Text
  pub pool : Pool

-- An item of the answer; a reader takes it without `sparse` too.
pub record EmbedItem : Type 0 where
  pub dense : List Text
  pub sparse : Option (List (Text × Text))

pub record EmbedResponse : Type 0 where
  pub model : Text
  pub embeddings : List EmbedItem

abbrev pub to_item : EmbeddingResult → EmbedItem
to_item r = record { dense = r.dense; sparse = some r.sparse }

-- `EmbeddingResult(dense=item["dense"], sparse=item.get("sparse", {}))`
abbrev pub from_item : EmbedItem → EmbeddingResult
from_item item = record {
  dense = item.dense;
  sparse = elim item.sparse [ some sparse ↦ sparse | none ↦ [] ];
}

abbrev pub Embedder : Type 0
Embedder = List Text → Result EmbedError (List EmbeddingResult)

module _ (embedder query_embedder : Embedder) (embed_model : Text) where
  abbrev pub pool_of : Pool → Embedder
  pool_of ingest_pool = embedder
  pool_of query_pool = query_embedder

  -- The body of the handler.
  unfoldable pub embed_texts : EmbedRequest → Result EmbedError EmbedResponse
  embed_texts request = do
    results ← pool_of request.pool request.texts
    ok (record { model = embed_model; embeddings = map to_item results })

  -- What a client of the endpoint sees: 400 for a body that the schema refuses, 500 for an exception.
  unfoldable pub answer : EmbedRequest → Result HttpError EmbedResponse
  unfolding embed_texts
  answer request =
      if not (embed_passes request.texts)
      then err (status_error 400)
      else elim (embed_texts request) [ ok response ↦ ok response | err _ ↦ err (status_error 500) ]

module _ (post : EmbedRequest → Result HttpError EmbedResponse) (pool : Pool) where
  -- `HttpEmbedder._embed_batch`
  unfoldable pub http_batch : List Text → Result HttpError (List EmbeddingResult)
  http_batch texts = do
    response ← post (record { texts = texts; pool = pool })
    ok (map from_item response.embeddings)

  -- `HttpEmbedder.embed`
  unfoldable pub http_embed : ℕ → Embedder
  unfolding http_batch
  http_embed batch_size = embed http_batch batch_size
