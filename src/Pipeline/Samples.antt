-- ===== src/Pipeline/Samples.antt =====
-- app/pipeline.py: the theorems on a document of one chunk, which the index holds or lacks.
use rag_ingestion_service.Pipeline.Ingested.{sent_chunks}
use rag_ingestion_service.Pipeline.Indexed.{Loaded, Indexes, overlay, action_entry}
use rag_ingestion_service.Prelude.{
  inl, if◌then◌else◌, Option, arith, ◌==◌, none, some, List, Text, [], codes, length, map, nat_eq,
  option_eq, refl, text_eq, true, ◌++◌, ◌∷◌, ◌≡◌,
}
use rag_ingestion_service.Prelude.Result.{Result, ok}
use rag_ingestion_service.Prelude.Filter.{filter}
use rag_ingestion_service.Exec.{Exec, pure}
use rag_ingestion_service.Errors.{Exception}
use rag_ingestion_service.Settings.{default_settings}
use rag_ingestion_service.Docling.Chunk.{DoclingChunk, chunk_id, content_hash}
use rag_ingestion_service.Embeddings.{EmbeddingResult}
use rag_ingestion_service.Search.{OpenSearch, Action, load_chunks, existing_hashes}
use rag_ingestion_service.Pipeline.Answers.{answer-overlay}
use rag_ingestion_service.Docling.Samples.{two_raw_chunks, two_chunks, payload_parsed}
use rag_ingestion_service.Pipeline.{get_hash, ingest_source}
use rag_ingestion_service.Pipeline.Changes.{ingest_unchanged}

abbrev digest : Text → Text
digest t = t

-- An index that answers with the given hashes and keeps the actions it is given.
abbrev client : List (Text × Text) → OpenSearch (List Action)
client hashes = record {
  index_exists = pure true;
  create_index = pure tt;
  search_hashes = λ rag_id document_id. pure hashes;
  bulk = λ actions i. (ok (length actions, 0), i ++ actions);
  refresh = pure tt;
  delete_by_query = λ rag_id document_id. pure 0;
}

abbrev chunk : DoclingChunk
chunk = record {
  rag_id = codes "r";
  document_id = codes "d";
  index = 0;
  text = codes "Hi";
  embed_text = codes "Hi";
  headings = [];
  pages = [];
}

abbrev chunker : Exec (List Action) (List DoclingChunk)
chunker = pure (chunk ∷ [])

abbrev vector : Text → EmbeddingResult
vector t = record { dense = t ∷ []; sparse = [] }

abbrev embedder : List Text → Result Exception (List EmbeddingResult)
embedder batch = ok (map vector batch)

abbrev held : List (Text × Text)
held = (chunk_id digest chunk, content_hash digest chunk) ∷ []

ingest_unchanged_example :
    ingest_source digest
      (client held)
      default_settings
      embedder
      chunker
      (codes "r")
      (codes "d")
      true
      []
    ≡ (ok 0, [])
unfolding existing_hashes chunk_id content_hash text_eq
    rag_ingestion_service.Prelude.Decimal.decimal
ingest_unchanged_example =
    ingest_unchanged digest (client held) default_settings embedder chunker (codes "r") (codes "d")
      [] [] [] (chunk ∷ []) held refl refl (refl, tt) (λ e. cc)

-- An index in memory, the newest entry first.
abbrev in_memory : OpenSearch (List (Text × Text))
in_memory = record {
  index_exists = pure true;
  create_index = pure tt;
  search_hashes = λ rag_id document_id i. (ok i, i);
  bulk = λ actions i. (ok (length actions, 0), map action_entry actions ++ i);
  refresh = pure tt;
  delete_by_query = λ rag_id document_id. pure 0;
}

abbrev hash_in : List (Text × Text) → Text → Option Text
hash_in i key = get_hash key i

get_hash-append :
    (front back : List (Text × Text)) (key : Text)
    → get_hash key (front ++ back) ≡ overlay front (hash_in back) key
unfolding overlay
get_hash-append [] back key = refl
get_hash-append ((k, h) ∷ front) back key = ground (arith, get_hash-append front back key)

in_memory-Indexes : Indexes in_memory hash_in
in_memory-Indexes = record {
  exists_keeps = λ i key. refl;
  refresh_keeps = λ i key. refl;
  search_keeps = λ rag_id document_id i key. refl;
  search_finds =
      λ rag_id document_id i i' known key h e found. let same : i ≡ known = cc in rw same found;
  bulk_writes = λ actions i i' n errors key d e.
      let written : map action_entry actions ++ i ≡ i' = cc in
      inl (rw (← written) (get_hash-append (map action_entry actions) i key));
}

-- The index that an ingestion leaves which holds the first of both chunks.
abbrev ingested : List (Text × Text)
ingested =
    (ingest_source digest in_memory default_settings embedder (pure two_chunks) (codes "r")
      (codes "d") true held).1

answer-overlay_example :
    Loaded digest
      (hash_in held)
      (hash_in ingested)
      two_chunks
      (sent_chunks digest in_memory default_settings embedder
        (codes "r")
        (codes "d")
        true
        two_chunks
        held)
      1
      (codes "r:d:1")
unfolding ingest_source existing_hashes load_chunks chunk_id content_hash filter text_eq nat_eq
    option_eq rag_ingestion_service.Prelude.Decimal.decimal mathlib.Core.List.zip
answer-overlay_example =
    answer-overlay digest (λ a b e. e) (codes "r") (codes "d") refl refl in_memory default_settings
      embedder hash_in two_raw_chunks two_chunks true held ingested 1 (codes "r:d:1")
      in_memory-Indexes payload_parsed refl
