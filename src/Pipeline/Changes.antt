-- ===== src/Pipeline/Changes.antt =====
-- app/pipeline.py: which chunks reach the embedder and the index.
use rag_ingestion_service.Prelude.{
  All, Bool, List, Text, [], arith, false, is_empty, map, nat_eq, option_eq, refl, some, text_eq,
  true, ◌∷◌, ◌≡◌, ◌≢◌,
}
use rag_ingestion_service.Prelude.Filter.{filter}
use rag_ingestion_service.Prelude.Result.{Result, ok}
use rag_ingestion_service.Errors.{Exception}
use rag_ingestion_service.Exec.{Exec}
use rag_ingestion_service.Settings.{Settings}
use rag_ingestion_service.Docling.Chunk.{DoclingChunk, chunk_id, content_hash}
use rag_ingestion_service.Embeddings.{EmbeddingResult}
use rag_ingestion_service.Search.{OpenSearch, load_chunks, existing_hashes}
use rag_ingestion_service.Pipeline.{get_hash, is_changed, ingest_source}

not_empty : {A : Type 0} (xs : List A) → xs ≢ [] → is_empty xs ≡ false
not_empty [] h = absurd (h refl)
not_empty (x ∷ xs) h = refl

some_chunk : {A : Type 0} (xs : List A) (p : A → Bool) → filter p xs ≢ [] → xs ≢ []
unfolding filter
some_chunk [] p h = h
some_chunk (x ∷ xs) p h = λ e. cc e

module _ (digest : Text → Text) {I : Type 0} (client : OpenSearch I) (s : Settings)
    (embedder : List Text → Result Exception (List EmbeddingResult)) where
  none_changed :
      (known : List (Text × Text)) (chunks : List DoclingChunk)
      → All (λ c. get_hash (chunk_id digest c) known ≡ some (content_hash digest c)) chunks
      → filter (is_changed digest client s embedder known) chunks ≡ []
  unfolding filter
  none_changed known [] h = refl
  none_changed known (c ∷ chunks) (e, h) = ground (arith, none_changed known chunks h)

  -- A document whose chunks the index already holds, each with the same content, is passed over:
  -- the result is 0, and after reading the chunks and the known hashes nothing is embedded or
  -- written.
  pub ingest_unchanged :
      (chunker : Exec I (List DoclingChunk)) (rag_id document_id : Text) (i i₁ i₂ : I)
      (chunks : List DoclingChunk) (known : List (Text × Text))
      → chunker i ≡ (ok chunks, i₁)
      → existing_hashes digest client s rag_id document_id i₁ ≡ (ok known, i₂)
      → All (λ c. get_hash (chunk_id digest c) known ≡ some (content_hash digest c)) chunks
      → chunks ≢ []
      → ingest_source digest client s embedder chunker rag_id document_id true i ≡ (ok 0, i₂)
  unfolding ingest_source
  ingest_unchanged chunker rag_id document_id i i₁ i₂ chunks known p q same filled =
      rw (p, not_empty chunks filled, q, none_changed known chunks same)

  -- Only the chunks that the index lacks, or holds with another content, are embedded and loaded.
  pub ingest_changed :
      (chunker : Exec I (List DoclingChunk)) (rag_id document_id : Text) (i i₁ i₂ : I)
      (chunks : List DoclingChunk) (known : List (Text × Text)) (vectors : List EmbeddingResult)
      → chunker i ≡ (ok chunks, i₁)
      → existing_hashes digest client s rag_id document_id i₁ ≡ (ok known, i₂)
      → let changed = filter (is_changed digest client s embedder known) chunks in
        changed ≢ []
        → embedder (map (λ c. c.embed_text) changed) ≡ ok vectors
        → ingest_source digest client s embedder chunker rag_id document_id true i
          ≡ load_chunks digest client s changed vectors i₂
  unfolding ingest_source
  ingest_changed chunker rag_id document_id i i₁ i₂ chunks known vectors p q filled e = rw (
    p,
    not_empty chunks (some_chunk chunks (is_changed digest client s embedder known) filled),
    q,
    not_empty _ filled,
    e,
  )
