-- ===== src/Docling.antt =====
-- app/docling/client.py: the answers of docling-serve are read here into chunks. The HTTP
-- transport is outside: the payloads are arguments.
pub mod Chunk
pub mod Pages
pub mod Chunks
pub mod Wait
pub mod Options
pub mod Submit
pub mod Agreement
pub mod Samples
use rag_ingestion_service.Prelude.{
  Bool, List, Option, Text, [], codes, foldl, if◌then◌else◌, is_empty, leb, ltb, nat_eq, none,
  option_eq, some, text_eq, true, ℕ, ◌&&◌, ◌++◌, ◌+◌, ◌==◌, ◌||◌, ◌∷◌,
}
use rag_ingestion_service.Prelude.Json.{
  Json, Fields, Fault, str, int, bool, obj, null, float, arr, get_field, is_truthy, or_else,
  as_dict, iterate,
}
use rag_ingestion_service.Prelude.Result.{Result, ok, err, ◌>>=◌}
use rag_ingestion_service.Docling.Chunk.{DoclingChunk}

-- A string that is not empty.
text_of : Option Json → Option Text
text_of (some (str t)) = if is_empty t then none else some t
text_of _ = none

-- The loop of `pick`.
pick : Fields → List Text → Text
unfolding text_of
pick raw [] = []
pick raw (key ∷ keys) =
    let rest = pick raw keys in elim (text_of (get_field key raw)) [ some t ↦ t | none ↦ rest ]

abbrev text_or : Text → Text → Text
text_or a b = if is_empty a then b else a

-- The raw text and the one with its headings.
pub extract_texts : Fields → Text × Text
unfolding pick
extract_texts raw =
    let contextual = pick raw (codes "contextualized_text" ∷ codes "text" ∷ []) in
    let plain = pick raw (codes "raw_text" ∷ codes "text" ∷ []) in
    (text_or plain contextual, text_or contextual plain)

-- `pages.add(page)`; the set is kept as an increasing list, as `sorted` returns it.
pub add_page : ℕ → List ℕ → List ℕ
add_page n [] = n ∷ []
add_page n (m ∷ ms) =
    let rest = add_page n ms in if ltb n m then n ∷ m ∷ ms else if n == m then m ∷ ms else m ∷ rest

-- `if isinstance(page, int): pages.add(page)`. In Python a bool is an int.
pub add_if_int : List ℕ → Option Json → List ℕ
unfolding add_page
add_if_int pages (some (int n)) = add_page n pages
add_if_int pages (some (bool b)) = add_page (if b then 1 else 0) pages
add_if_int pages _ = pages

abbrev add_int : List ℕ → Json → List ℕ
add_int pages page = add_if_int pages (some page)

pub add_provs : List Json → List ℕ → Result Fault (List ℕ)
add_provs [] pages = ok pages
add_provs (prov ∷ provs) pages = do
  fields ← as_dict (some prov)
  add_provs provs (add_if_int pages (get_field (codes "page_no") fields))

-- The loop over `doc_items`; what is no dict is passed over.
pub add_items : List Json → List ℕ → Result Fault (List ℕ)
unfolding add_provs
add_items [] pages = ok pages
add_items (obj fields ∷ rest) pages = do
  provs ← iterate (get_field (codes "prov") fields)
  pages' ← add_provs provs pages
  add_items rest pages'
add_items (null ∷ rest) pages = add_items rest pages
add_items (bool b ∷ rest) pages = add_items rest pages
add_items (int n ∷ rest) pages = add_items rest pages
add_items (float ∷ rest) pages = add_items rest pages
add_items (str t ∷ rest) pages = add_items rest pages
add_items (arr xs ∷ rest) pages = add_items rest pages

pub extract_pages : Fields → Fields → Result Fault (List ℕ)
unfolding add_items add_if_int
extract_pages raw meta = do
  numbers ← iterate (get_field (codes "page_numbers") raw)
  doc_items ← iterate (get_field (codes "doc_items") meta)
  add_items doc_items (foldl add_int [] numbers)

-- `str.isspace` of one character
pub is_space : ℕ → Bool
is_space c =
    leb 9 c && leb c 13
    || leb 28 c && leb c 32
    || c == 0x85
    || c == 0xA0
    || c == 0x1680
    || leb 0x2000 c && leb c 0x200A
    || c == 0x2028
    || c == 0x2029
    || c == 0x202F
    || c == 0x205F
    || c == 0x3000

-- `not text.strip()`
pub is_blank : Text → Bool
unfolding is_space
is_blank [] = true
is_blank (c ∷ s) = is_space c && is_blank s

-- `raw.get("meta") or raw.get("metadata") or {}`
pub meta_of : Fields → Result Fault Fields
meta_of raw =
    let meta = or_else (get_field (codes "meta") raw) (get_field (codes "metadata") raw) in
    if is_truthy meta then as_dict meta else ok Fields.end

module _ (rag_id document_id : Text) where
  -- The body of the loop of `_parse_chunks`: no chunk for a blank text.
  pub parse_chunk : ℕ → Fields → Result Fault (List DoclingChunk)
  parse_chunk i raw =
      let (raw_text, embed_text) = extract_texts raw in
      if is_blank raw_text then ok [] else do
        meta ← meta_of raw
        headings ←
            iterate (or_else (get_field (codes "headings") raw) (get_field (codes "headings") meta))
        pages ← extract_pages raw meta
        ok (
            record {
              rag_id = rag_id;
              document_id = document_id;
              index = i;
              text = raw_text;
              embed_text = embed_text;
              headings = headings;
              pages = pages;
            }
            ∷ [])

  -- The loop, with the counter of `enumerate`.
  pub parse_from : ℕ → List Json → Result Fault (List DoclingChunk)
  parse_from i [] = ok []
  parse_from i (raw ∷ raws) = do
    fields ← as_dict (some raw)
    front ← parse_chunk i fields
    rest ← parse_from (i + 1) raws
    ok (front ++ rest)

  unfoldable pub parse_chunks : Fields → Result Fault (List DoclingChunk)
  unfolding parse_from
  parse_chunks payload = do raws ← iterate (get_field (codes "chunks") payload); parse_from 0 raws
