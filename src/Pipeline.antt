-- ===== src/Pipeline.antt =====
-- app/pipeline.py: docling, then the embedder, then the index, for one document. The chunker is
-- given as its outcome, the embedder as a function on all texts.
pub mod Changes
pub mod Indexed
pub mod Ingested
pub mod Answers
mod Samples
use rag_ingestion_service.Prelude.{
  Bool, List, Option, Text, [], if◌then◌else◌, is_empty, map, nat_eq, none, not, option_eq, some,
  text_eq, true, ℕ, ◌+◌, ◌==◌, ◌∷◌,
}
use rag_ingestion_service.Prelude.Filter.{filter, sum_of}
use rag_ingestion_service.Prelude.Result.{Result, ok, err}
use rag_ingestion_service.Errors.{Exception}
use rag_ingestion_service.Exec.{Exec, pure, raise, gets, modify, continue, ◌>>=◌, ◌>>◌}
use rag_ingestion_service.Settings.{Settings}
use rag_ingestion_service.Docling.Chunk.{DoclingChunk, chunk_id, content_hash}
use rag_ingestion_service.Embeddings.{EmbeddingResult}
use rag_ingestion_service.Search.{OpenSearch, load_chunks, existing_hashes}

-- `known.get(key)`
abbrev pub get_hash : Text → List (Text × Text) → Option Text
get_hash key [] = none
get_hash key ((k, h) ∷ known) = if k == key then some h else get_hash key known

module _ (digest : Text → Text) {I : Type 0} (client : OpenSearch I) (s : Settings)
    (embedder : List Text → Result Exception (List EmbeddingResult)) where
  -- `known.get(c.chunk_id) != c.content_hash`
  abbrev pub is_changed : List (Text × Text) → DoclingChunk → Bool
  is_changed known c = not (get_hash (chunk_id digest c) known == some (content_hash digest c))

  -- The rest of `ingest_source` for the chunks that are left.
  embed_and_load : List DoclingChunk → Exec I ℕ
  embed_and_load chunks = do
    embeddings ← λ i. (embedder (map (λ c. c.embed_text) chunks), i)
    load_chunks digest client s chunks embeddings

  unfoldable pub ingest_source : Exec I (List DoclingChunk) → Text → Text → Bool → Exec I ℕ
  unfolding embed_and_load
  ingest_source chunker rag_id document_id skip_unchanged = do
    chunks ← chunker
    if is_empty chunks
        then pure 0
        else if skip_unchanged
        then (do
          known ← existing_hashes digest client s rag_id document_id
          let changed = filter (is_changed known) chunks
          if is_empty changed then pure 0 else embed_and_load changed)
        else embed_and_load chunks

  -- The order in which `asyncio.gather` runs the items is the order of the list here; a failed
  -- item counts as 0.
  unfoldable pub ingest_all : List (Exec I (List DoclingChunk) × Text × Text) → I → ℕ × I
  unfolding ingest_source
  ingest_all [] i = (0, i)
  ingest_all ((chunker, rag_id, document_id) ∷ items) i =
      let (r, i') = ingest_source chunker rag_id document_id true i in
      let (n, j) = ingest_all items i' in (elim r [ ok loaded ↦ loaded + n | err _ ↦ n ], j)
