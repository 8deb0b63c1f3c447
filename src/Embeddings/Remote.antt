-- ===== src/Embeddings/Remote.antt =====
-- app/embeddings/http.py over app/api/embed.py: an embedder behind the endpoint gives what the model gives.
use rag_ingestion_service.Api.Embed.{
  EmbedRequest, EmbedResponse, pool_of, Pool, query_pool, ingest_pool, to_item, from_item,
  embed_texts, answer, http_batch, http_embed,
}
use rag_ingestion_service.Prelude.{
  List, Text, [], arith, length, map, nat_eq, option_eq, refl, text_eq, true, sym, ◌∙◌, ℕ, ◌∷◌, ◌<◌,
  ◌≡◌, ◌≤◌,
}
use rag_ingestion_service.Prelude.Result.{Result, ok}
use rag_ingestion_service.Embeddings.{EmbeddingResult, embed}
use rag_ingestion_service.Embeddings.Batches.{embed-map}
use rag_ingestion_service.Api.Schemas.{embed_passes}
use rag_ingestion_service.Docling.Wait.{HttpError}

items_back : (results : List EmbeddingResult) → map from_item (map to_item results) ≡ results
items_back [] = refl
items_back (r ∷ results) = rw (items_back results)

module _ {E : Type 0} (embed_batch : List Text → Result E (List EmbeddingResult))
    (size query_size : ℕ) (embed_model : Text) (f : Text → EmbeddingResult)
    (pointwise : (batch : List Text) → embed_batch batch ≡ ok (map f batch)) (size_pos : 0 < size)
    (query_size_pos : 0 < query_size) where
  abbrev endpoint : EmbedRequest → Result HttpError EmbedResponse
  endpoint = answer (embed embed_batch size) (embed embed_batch query_size) embed_model

  -- Both pools embed with the one model.
  one_model :
      (pool : Pool) (texts : List Text)
      → pool_of (embed embed_batch size) (embed embed_batch query_size) embed_model pool texts
        ≡ ok (map f texts)
  one_model ingest_pool texts =
      embed-map embed_batch size f (λ batch _ _. pointwise batch) texts size_pos
  one_model query_pool texts =
      embed-map embed_batch query_size f (λ batch _ _. pointwise batch) texts query_size_pos

  batch_lem :
      (pool : Pool) (batch : List Text)
      → 0 < length batch
      → length batch ≤ 256
      → http_batch endpoint pool batch ≡ ok (map f batch)
  unfolding http_batch answer embed_texts embed_passes
  batch_lem pool batch some_text fits =
      let taken : embed_passes batch ≡ true = ground arith in
      rw (one_model pool batch, taken, items_back)

  -- Where the model embeds each text by itself, and the embedders of both pools take batches of a
  -- positive size, an embedder behind the endpoint, for either pool and every size of a batch that the
  -- endpoint takes, gives the embedding of every text in order: what the embedder of the process gives.
  pub http_embed-map :
      (pool : Pool) (batch_size : ℕ) (texts : List Text)
      → 0 < batch_size
      → batch_size ≤ 256
      → (http_embed endpoint pool batch_size texts ≡ ok (map f texts))
        × (http_embed endpoint pool batch_size texts ≡ embed embed_batch size texts)
  unfolding http_embed
  http_embed-map pool batch_size texts pos fits =
      let remote =
        embed-map (http_batch endpoint pool) batch_size f
          (λ batch some_text small. batch_lem pool batch some_text (omega arith)) texts pos in
      (remote, remote ∙ sym (one_model ingest_pool texts))
