-- ===== src/Docling/Samples.antt =====
-- app/docling/: the theorems on an answer with one usable chunk and on a task that succeeds in
-- its second round.
use rag_ingestion_service.Docling.Chunks.{AtPlaces, parse_chunks-Numbered, Numbered, IsUsable}
use rag_ingestion_service.Prelude.{
  List, some, All, [], arith, codes, false, if◌then◌else◌, ltb, nat_eq, none, option_eq, refl,
  text_eq, true, ℕ, ◌+◌, ◌∷◌, ◌≡◌, ◌≢◌,
}
use rag_ingestion_service.Prelude.Result.{Result, ok}
use rag_ingestion_service.Prelude.Json.{Json, Fields, int, str, arr, obj, nil, cons, end, field}
use rag_ingestion_service.Docling.{parse_chunks, extract_pages}
use rag_ingestion_service.Docling.Chunk.{DoclingChunk}
use mathlib.Core.Option
use rag_ingestion_service.Docling.Options.{ConversionOptions, default_conversion, default_chunking}
use rag_ingestion_service.Docling.Submit.{file_request, url_request}
use rag_ingestion_service.Docling.Agreement.{as_form, form_field, json_option, requests_lem}
use rag_ingestion_service.Docling.Wait.{
  HttpError, wait, wait-ne-none, wait_success, succeeded, rounds,
}

abbrev pages : Json
pages = arr (cons (int 3) (cons (int 1) (cons (int 3) nil)))

abbrev raw : Fields
raw = field (codes "text") (str (codes "Hi")) (field (codes "page_numbers") pages end)

abbrev payload : Fields
payload = field (codes "chunks") (arr (cons (obj raw) nil)) end

abbrev chunk : DoclingChunk
chunk = record {
  rag_id = codes "r";
  document_id = codes "d";
  index = 0;
  text = codes "Hi";
  embed_text = codes "Hi";
  headings = [];
  pages = 1 ∷ 3 ∷ [];
}

parse_chunks-Numbered_example :
    Numbered 0 (chunk ∷ [])
    × All (IsUsable (codes "r") (codes "d")) (chunk ∷ [])
    × AtPlaces payload (chunk ∷ [])
unfolding parse_chunks rag_ingestion_service.Prelude.Json.iterate
    rag_ingestion_service.Prelude.Json.get_field text_eq rag_ingestion_service.Prelude.Json.as_dict
    rag_ingestion_service.Docling.parse_chunk rag_ingestion_service.Docling.is_blank
    rag_ingestion_service.Docling.extract_texts nat_eq rag_ingestion_service.Docling.meta_of
    rag_ingestion_service.Prelude.Json.or_else extract_pages
parse_chunks-Numbered_example =
    parse_chunks-Numbered (codes "r") (codes "d") payload (chunk ∷ []) refl

abbrev answers : ℕ → Result HttpError Fields
answers k =
    ok
      (field (codes "task_status") (str (if ltb 0 k then codes "success" else codes "started")) end)

wait-ne-none_example : wait answers (λ k. k) 5 6 0 ≢ none
wait-ne-none_example = wait-ne-none answers (λ k. k) 5 5 0 (λ i. omega arith) (omega arith)

wait_success_example :
    (m : ℕ) × (succeeded answers (λ k. k) 5 (0 + m) ≡ true)
    × All (λ i. succeeded answers (λ k. k) 5 i ≡ false) (rounds answers (λ k. k) 5 0 m)
unfolding wait rag_ingestion_service.Prelude.Json.get_field text_eq
wait_success_example = wait_success answers (λ k. k) 5 6 0 refl

abbrev filled : ConversionOptions
filled = record default_conversion { ocr_preset = some (codes "fast") }

requests_lem_example :
    form_field
      (codes "chunking_max_tokens")
      (file_request (codes "http://d/") none (codes "a.pdf") (codes "body") filled default_chunking)
    ≡ Option.map as_form (
        json_option
          (codes "chunking_max_tokens")
          (url_request (codes "http://d/") none (codes "http://s/a.pdf") filled default_chunking))
requests_lem_example =
    requests_lem (codes "http://d/") none (codes "a.pdf") (codes "body") (codes "http://s/a.pdf")
      (codes "chunking_max_tokens") filled default_chunking

abbrev pub two_raw_chunks : Fields
two_raw_chunks =
    field (codes "chunks")
      (arr (
        cons (obj (field (codes "text") (str (codes "Hi")) end))
          (cons (obj (field (codes "text") (str (codes "Ho")) end)) nil)))
      end

abbrev pub two_chunks : List DoclingChunk
two_chunks =
    record chunk { pages = [] }
    ∷ record chunk { index = 1; text = codes "Ho"; embed_text = codes "Ho"; pages = [] }
    ∷ []

pub payload_parsed : parse_chunks (codes "r") (codes "d") two_raw_chunks ≡ ok two_chunks
unfolding parse_chunks rag_ingestion_service.Prelude.Json.iterate
    rag_ingestion_service.Prelude.Json.get_field text_eq rag_ingestion_service.Prelude.Json.as_dict
    rag_ingestion_service.Docling.parse_chunk rag_ingestion_service.Docling.is_blank
    rag_ingestion_service.Docling.extract_texts nat_eq rag_ingestion_service.Docling.meta_of
    rag_ingestion_service.Prelude.Json.or_else extract_pages
payload_parsed = refl
