-- ===== src/Docling/Chunk.antt =====
-- app/docling/chunk.py: a chunk of a document and its keys. `digest` is hashlib's blake2b of 16
-- bytes, as hexadecimal digits.
pub mod Identity
use rag_ingestion_service.Prelude.{List, Text, [], nat_eq, option_eq, text_eq, ℕ, ◌++◌, ◌∷◌}
use rag_ingestion_service.Prelude.Decimal.{decimal}
use rag_ingestion_service.Prelude.Json.{Json}

pub record DoclingChunk : Type 0 where
  pub rag_id : Text
  pub document_id : Text
  pub index : ℕ
  pub text : Text
  pub embed_text : Text
  pub headings : List Json
  pub pages : List ℕ

-- `f"{rag_id}:{document_id}:{index}"`
abbrev pub chunk_key : Text → Text → ℕ → Text
chunk_key rag_id document_id index = rag_id ++ (b':' ∷ document_id ++ (b':' ∷ decimal index))

-- The part of `to_source` that the queries of the service read.
pub record Source : Type 0 where
  pub source_rag_id : Text
  pub source_document_id : Text
  pub chunk_index : ℕ
  pub content : Text
  pub source_headings : List Json
  pub source_pages : List ℕ
  pub source_hash : Text

module _ (digest : Text → Text) where
  unfoldable pub chunk_id : DoclingChunk → Text
  chunk_id c = digest (chunk_key c.rag_id c.document_id c.index)

  unfoldable pub content_hash : DoclingChunk → Text
  content_hash c = digest c.text

  unfoldable pub to_source : DoclingChunk → Source
  to_source c = record {
    source_rag_id = c.rag_id;
    source_document_id = c.document_id;
    chunk_index = c.index;
    content = c.text;
    source_headings = c.headings;
    source_pages = c.pages;
    source_hash = content_hash c;
  }
