-- ===== src/Pipeline/Answers.antt =====
-- app/docling/client.py, app/pipeline.py and app/search/loader.py: from an answer of Docling to the index.
use rag_ingestion_service.Pipeline.Ingested.{sent_chunks, ingest_source-overlay}
use rag_ingestion_service.Pipeline.Indexed.{Loaded, Indexes, keys}
use rag_ingestion_service.Prelude.{
  refl, All, Bool, Distinct, List, Option, Text, [], arith, contains, false, nat_eq, option_eq, suc,
  text_eq, ℕ, ◌<◌, ◌∷◌, ◌≡◌, ◌≢◌, ◌∙◌, sym,
}
use rag_ingestion_service.Prelude.Json.{Fields}
use rag_ingestion_service.Prelude.Result.{Result, ok}
use rag_ingestion_service.Errors.{Exception}
use rag_ingestion_service.Exec.{pure}
use rag_ingestion_service.Settings.{Settings}
use rag_ingestion_service.Docling.{parse_chunks}
use rag_ingestion_service.Docling.Chunk.{DoclingChunk, chunk_key, chunk_id}
use rag_ingestion_service.Docling.Chunk.Identity.{chunk_key_injective}
use rag_ingestion_service.Docling.Chunks.{Numbered, IsUsable, parse_chunks-Numbered}
use rag_ingestion_service.Embeddings.{EmbeddingResult}
use rag_ingestion_service.Search.{OpenSearch}
use rag_ingestion_service.Pipeline.{ingest_source}

module _ (digest : Text → Text) (one_to_one : (a b : Text) → digest a ≡ digest b → a ≡ b)
    (rag_id document_id : Text) (plain_rag : contains rag_id b':' ≡ false)
    (plain_document : contains document_id b':' ≡ false) where
  abbrev key_at : ℕ → Text
  key_at i = digest (chunk_key rag_id document_id i)

  key_of : (c : DoclingChunk) → IsUsable rag_id document_id c → chunk_id digest c ≡ key_at c.index
  unfolding chunk_id
  key_of c usable = rw (usable.of_set, usable.of_document)

  key_at_injective : (i j : ℕ) → key_at i ≡ key_at j → i ≡ j
  key_at_injective i j e =
      let (_, _, same) =
        chunk_key_injective rag_id document_id rag_id document_id i j plain_rag plain_rag
          plain_document plain_document (one_to_one _ _ e) in
      same

  -- The numbers grow, so no key comes again.
  later_keys :
      (i lo : ℕ) (chunks : List DoclingChunk)
      → i < lo
      → Numbered lo chunks
      → All (IsUsable rag_id document_id) chunks
      → contains (keys digest chunks) (key_at i) ≡ false
  later_keys i lo [] before n u = refl
  later_keys i lo (c ∷ chunks) before (least, n) (usable, u) =
      let rest = later_keys i (suc c.index) chunks (omega arith) n u in
      let differ : chunk_id digest c ≢ key_at i = λ e.
        let same : c.index ≡ i = key_at_injective c.index i (sym (key_of c usable) ∙ e) in
        omega arith in
      ground (arith, rest, differ)

  keys-Distinct :
      (lo : ℕ) (chunks : List DoclingChunk)
      → Numbered lo chunks
      → All (IsUsable rag_id document_id) chunks
      → Distinct (keys digest chunks)
  keys-Distinct lo [] n u = tt
  keys-Distinct lo (c ∷ chunks) (least, n) (usable, u) = (
    rw (key_of c usable) (later_keys c.index (suc c.index) chunks (omega arith) n u),
    keys-Distinct (suc c.index) chunks n u,
  )

  -- Where the digest has no collisions and no identifier has a colon, an ingestion that returns the
  -- number of the chunks that it sends has put every chunk that is read from the answer of Docling
  -- into the index, under its key and with the digest of its content; a key may be as before only where
  -- it returns less, since the index refused single chunks. It leaves every other key as it was. It
  -- sends all chunks, or those that the index does not hold already with the same content.
  pub answer-overlay :
      {I : Type 0} (client : OpenSearch I) (s : Settings)
      (embedder : List Text → Result Exception (List EmbeddingResult))
      (hash_at : I → Text → Option Text) (payload : Fields) (chunks : List DoclingChunk)
      (skip_unchanged : Bool) (i i' : I) (n : ℕ) (key : Text)
      → Indexes client hash_at
      → parse_chunks rag_id document_id payload ≡ ok chunks
      → ingest_source digest client s embedder (pure chunks) rag_id document_id skip_unchanged i
        ≡ (ok n, i')
      → Loaded digest
          (hash_at i)
          (hash_at i')
          chunks
          (sent_chunks digest client s embedder rag_id document_id skip_unchanged chunks i)
          n
          key
  answer-overlay client s embedder hash_at payload chunks skip_unchanged i i' n key laws parsed e =
      let (numbered, usable, _) = parse_chunks-Numbered rag_id document_id payload chunks parsed in
      ingest_source-overlay digest client s embedder hash_at laws chunks rag_id document_id
        skip_unchanged i i' n key (keys-Distinct 0 chunks numbered usable) e
