-- ===== src/Embeddings/Samples.antt =====
-- app/embeddings/base.py: the theorem on three texts in batches of two.
use rag_ingestion_service.Prelude.{
  List, Text, [], arith, codes, map, nat_eq, option_eq, refl, text_eq, ◌∷◌, ◌≡◌,
}
use rag_ingestion_service.Prelude.Result.{Result, ok}
use rag_ingestion_service.Errors.{Exception}
use rag_ingestion_service.Embeddings.{EmbeddingResult, embed}
use rag_ingestion_service.Docling.Wait.{HttpError}
use rag_ingestion_service.Api.Embed.{EmbedRequest, EmbedResponse, query_pool, answer, http_embed}
use rag_ingestion_service.Embeddings.Remote.{http_embed-map}

abbrev vector : Text → EmbeddingResult
vector t = record { dense = t ∷ []; sparse = [] }

abbrev embed_batch : List Text → Result Exception (List EmbeddingResult)
embed_batch batch = ok (map vector batch)

abbrev texts : List Text
texts = codes "a" ∷ codes "b" ∷ codes "c" ∷ []

abbrev endpoint : EmbedRequest → Result HttpError EmbedResponse
endpoint = answer (embed embed_batch 2) (embed embed_batch 8) (codes "bge-m3")

http_embed-map_example :
    (http_embed endpoint query_pool 2 texts ≡ ok (map vector texts))
    × (http_embed endpoint query_pool 2 texts ≡ embed embed_batch 2 texts)
http_embed-map_example =
    http_embed-map embed_batch 2 8 (codes "bge-m3") vector (λ batch. refl) (omega arith)
      (omega arith) query_pool 2 texts (omega arith) (omega arith)
