-- ===== src/Docling/Chunks.antt =====
-- app/docling/client.py: the chunks that are read from an answer.
use rag_ingestion_service.Prelude.{
  none, Option, All-imp, All-append, zero, All, List, Text, [], arith, codes, false, if_ind, nat_eq,
  option_eq, refl, some, suc, sym, text_eq, ℕ, ◌++◌, ◌+◌, ◌∷◌, ◌≡◌, ◌≢◌, ◌≤◌,
}
use rag_ingestion_service.Prelude.Json.{Json, Fields, Fault, iterate, as_dict, get_field, or_else}
use rag_ingestion_service.Prelude.Result.{Result, ok, >>=-eq-ok, ok_injective}
use native.Mathlib.Numerals.{add-one}
use rag_ingestion_service.Docling.{
  extract_texts, extract_pages, is_blank, meta_of, parse_chunk, parse_from, parse_chunks,
}
use rag_ingestion_service.Docling.Chunk.{DoclingChunk}

-- Each index is at least `lo` and larger than the one before it.
abbrev pub Numbered : ℕ → List DoclingChunk → Type 0
Numbered lo [] = Unit
Numbered lo (c ∷ cs) = (lo ≤ c.index) × Numbered (suc c.index) cs

Numbered-le : (lo hi : ℕ) (cs : List DoclingChunk) → lo ≤ hi → Numbered hi cs → Numbered lo cs
Numbered-le lo hi [] le h = tt
Numbered-le lo hi (c ∷ cs) le (i, h) = (omega arith, h)

embed_text-ne-nil :
    (raw : Fields) → is_blank (extract_texts raw).0 ≡ false → (extract_texts raw).1 ≢ []
unfolding extract_texts is_blank
embed_text-ne-nil raw h = λ e. ground arith

abbrev pub get_elem? {ℓ} : {A : Type ℓ} → List A → ℕ → Option A
get_elem? [] i = none
get_elem? (x ∷ xs) zero = some x
get_elem? (x ∷ xs) (suc i) = get_elem? xs i

-- Counted from `lo`, the number of the chunk is its place among the raw ones, and its texts are those
-- of the raw chunk there.
abbrev Placed : ℕ → List Json → DoclingChunk → Type 0
Placed lo raws c =
    (k : ℕ) × (raw : Json) × (fields : Fields) × (c.index ≡ lo + k)
    × (get_elem? raws k ≡ some raw)
    × (as_dict (some raw) ≡ ok fields)
    × (extract_texts fields ≡ (c.text, c.embed_text))

-- The texts of the chunk are those of the raw chunk at its number.
abbrev pub IsAt : List Json → DoclingChunk → Type 0
IsAt raws c =
    (raw : Json) × (fields : Fields) × (get_elem? raws c.index ≡ some raw)
    × (as_dict (some raw) ≡ ok fields)
    × (extract_texts fields ≡ (c.text, c.embed_text))

Placed-IsAt : (raws : List Json) (c : DoclingChunk) → Placed 0 raws c → IsAt raws c
Placed-IsAt raws c (k, raw, fields, at, there, as_fields, texts) =
    let same : k ≡ c.index = omega (arith, at) in (raw, fields, rw same at there, as_fields, texts)

-- `chunks` is a list in the answer, and each chunk is at its place in it.
abbrev pub AtPlaces : Fields → List DoclingChunk → Type 0
AtPlaces payload chunks =
    (raws : List Json) × (iterate (get_field (codes "chunks") payload) ≡ ok raws)
    × All (IsAt raws) chunks

module _ (rag_id document_id : Text) where
  -- The chunk belongs to the document, its text is not blank, and it has a text for the model.
  pub record IsUsable (c : DoclingChunk) : Type 0 where
    pub of_set : c.rag_id ≡ rag_id
    pub of_document : c.document_id ≡ document_id
    pub readable : is_blank c.text ≡ false
    pub embeddable : c.embed_text ≢ []

  -- What one raw chunk gives: nothing, or one usable chunk with its number.
  data Parsed (i : ℕ) (raw : Fields) (chunks : List DoclingChunk) : Type 0 where
    blank : chunks ≡ [] → Parsed i raw chunks
    usable :
        (c : DoclingChunk)
        → c.index ≡ i
        → extract_texts raw ≡ (c.text, c.embed_text)
        → IsUsable c
        → chunks ≡ c ∷ []
        → Parsed i raw chunks

  parse_chunk-Parsed :
      (i : ℕ) (raw : Fields) (chunks : List DoclingChunk)
      → parse_chunk rag_id document_id i raw ≡ ok chunks
      → Parsed i raw chunks
  unfolding parse_chunk
  parse_chunk-Parsed i raw chunks =
      if_ind (λ (r : Result Fault (List DoclingChunk)). r ≡ ok chunks → Parsed i raw chunks)
        (is_blank (extract_texts raw).0) (λ _ e. blank (sym (ok_injective e)))
        λ readable e.
          let (meta, _, e₁) = >>=-eq-ok (meta_of raw) _ e in
          let (headings, _, e₂) =
            >>=-eq-ok
              (iterate
                (or_else (get_field (codes "headings") raw) (get_field (codes "headings") meta)))
              _ e₁ in
          let (pages, _, e₃) = >>=-eq-ok (extract_pages raw meta) _ e₂ in
          usable _ refl refl
            (record {
              of_set = refl;
              of_document = refl;
              readable = readable;
              embeddable = embed_text-ne-nil raw readable;
            })
            (sym (ok_injective e₃))

  Parsed-append :
      (i : ℕ) (raw : Fields) (front rest : List DoclingChunk)
      → Parsed i raw front
      → Numbered (suc i) rest × All IsUsable rest
      → Numbered i (front ++ rest) × All IsUsable (front ++ rest)
  Parsed-append i raw front rest (blank e) (n, h) =
      rw e (Numbered-le i (suc i) rest (omega arith) n, h)
  Parsed-append i raw front rest (usable c at texts good e) (n, h) =
      rw e ((omega arith, rw at n), (good, h))

  parse_from-Numbered :
      (i : ℕ) (raws : List Json) (chunks : List DoclingChunk)
      → parse_from rag_id document_id i raws ≡ ok chunks
      → Numbered i chunks × All IsUsable chunks
  unfolding parse_from
  parse_from-Numbered i [] chunks e = rw (← ok_injective e) (tt, tt)
  parse_from-Numbered i (raw ∷ raws) chunks e =
      let (fields, _, e₁) = >>=-eq-ok (as_dict (some raw)) _ e in
      let (front, made, e₂) = >>=-eq-ok (parse_chunk rag_id document_id i fields) _ e₁ in
      let (rest, later, e₃) = >>=-eq-ok (parse_from rag_id document_id (i + 1) raws) _ e₂ in
      rw (← ok_injective e₃) (
        Parsed-append i fields front rest (parse_chunk-Parsed i fields front made)
          (rw add-one at (parse_from-Numbered (i + 1) raws rest later)))

  Parsed-Placed :
      (i : ℕ) (raw : Json) (raws : List Json) (fields : Fields) (front : List DoclingChunk)
      → as_dict (some raw) ≡ ok fields
      → Parsed i fields front
      → All (Placed i (raw ∷ raws)) front
  Parsed-Placed i raw raws fields front as_fields (blank e) = rw e tt
  Parsed-Placed i raw raws fields front as_fields (usable c at texts good e) =
      rw e ((0, raw, fields, omega (arith, at), refl, as_fields, texts), tt)

  parse_from-Placed :
      (i : ℕ) (raws : List Json) (chunks : List DoclingChunk)
      → parse_from rag_id document_id i raws ≡ ok chunks
      → All (Placed i raws) chunks
  unfolding parse_from
  parse_from-Placed i [] chunks e = rw (← ok_injective e) tt
  parse_from-Placed i (raw ∷ raws) chunks e =
      let (fields, as_fields, e₁) = >>=-eq-ok (as_dict (some raw)) _ e in
      let (front, made, e₂) = >>=-eq-ok (parse_chunk rag_id document_id i fields) _ e₁ in
      let (rest, later, e₃) = >>=-eq-ok (parse_from rag_id document_id (i + 1) raws) _ e₂ in
      rw (← ok_injective e₃) (
        All-append _ front rest
          (Parsed-Placed i raw raws fields front as_fields (parse_chunk-Parsed i fields front made))
          (All-imp _ _ rest
            (λ c (k, a, fs, at, there, as_fs, texts).
              (suc k, a, fs, omega (arith, at), there, as_fs, texts))
            (parse_from-Placed (i + 1) raws rest later)))

  -- The chunks read from an answer are numbered in strictly increasing order, by their places in the
  -- list of the answer: the texts of each are those of the raw chunk at the place that is its number.
  -- Each carries the keys of its set and document, a text that is not blank, and a text for the model
  -- that is not empty.
  pub parse_chunks-Numbered :
      (payload : Fields) (chunks : List DoclingChunk)
      → parse_chunks rag_id document_id payload ≡ ok chunks
      → Numbered 0 chunks × All IsUsable chunks × AtPlaces payload chunks
  unfolding parse_chunks
  parse_chunks-Numbered payload chunks e =
      let (raws, there, e₁) = >>=-eq-ok (iterate (get_field (codes "chunks") payload)) _ e in
      let (numbered, good) = parse_from-Numbered 0 raws chunks e₁ in
      (
        numbered,
        good,
        (raws, there, All-imp _ _ chunks (Placed-IsAt raws) (parse_from-Placed 0 raws chunks e₁)),
      )
