-- ===== src/Search.antt =====
-- app/search/loader.py: the chunks of all sets in one OpenSearch index. The client is outside the
-- repository: what the loader calls of it is the record `OpenSearch`, over a state `I`.
pub mod Calibration
use rag_ingestion_service.Prelude.{
  Bool, List, Option, Text, [], if◌then◌else◌, is_empty, length, ltb, map, nat_eq, none, not,
  option_eq, some, text_eq, ℕ, ◌&&◌, ◌==◌,
}
use mathlib.Core.List.{zip}
use rag_ingestion_service.Errors.{lengths_differ}
use rag_ingestion_service.Exec.{Exec, pure, raise, ◌>>=◌, ◌>>◌}
use rag_ingestion_service.Settings.{Settings}
use rag_ingestion_service.Docling.Chunk.{DoclingChunk, Source, chunk_id, to_source}
use rag_ingestion_service.Embeddings.{EmbeddingResult}

-- An `index` action of a bulk request.
pub record Action : Type 0 where
  pub action_id : Text
  pub source : Source
  pub vectors : EmbeddingResult

pub record OpenSearch (I : Type 0) : Type 0 where
  pub index_exists : Exec I Bool
  pub create_index : Exec I (Unit {0})
  -- `_id` and `content_hash` of the chunks that pass the two term filters, ten thousand at most
  pub search_hashes : Text → Text → Exec I (List (Text × Text))
  -- the numbers of actions that succeeded and of errors
  pub bulk : List Action → Exec I (ℕ × ℕ)
  pub refresh : Exec I (Unit {0})
  -- by `rag_id`, and by `document_id` where it is given; the number of deleted chunks
  pub delete_by_query : Text → Option Text → Exec I ℕ

module _ (digest : Text → Text) {I : Type 0} (client : OpenSearch I) (s : Settings) where
  unfoldable pub ensure_index : Exec I (Unit {0})
  ensure_index = do there ← client.index_exists; if there then pure tt else client.create_index

  abbrev pub to_action : DoclingChunk × EmbeddingResult → Action
  to_action (chunk, emb) = record {
    action_id = chunk_id digest chunk;
    source = to_source digest chunk;
    vectors = emb;
  }

  -- `load`
  unfoldable pub load_chunks : List DoclingChunk → List EmbeddingResult → Exec I ℕ
  load_chunks chunks embeddings =
      if not (length chunks == length embeddings)
      then raise (lengths_differ (length chunks) (length embeddings))
      else if is_empty chunks
      then pure 0
      else do
        (succeeded, errors) ← client.bulk (map to_action (zip chunks embeddings))
        if ltb 0 succeeded && s.refresh_after_load
            then (do client.refresh; pure succeeded)
            else pure succeeded

  unfoldable pub existing_hashes : Text → Text → Exec I (List (Text × Text))
  existing_hashes rag_id document_id = do
    there ← client.index_exists
    if there then client.search_hashes rag_id document_id else pure []

  unfoldable pub delete_rag : Text → Exec I ℕ
  delete_rag rag_id = client.delete_by_query rag_id none

  unfoldable pub delete_document : Text → Text → Exec I ℕ
  delete_document rag_id document_id = client.delete_by_query rag_id (some document_id)
