-- ===== src/Docling/Agreement.antt =====
-- app/docling/options.py and app/docling/client.py: a file and a URL are submitted with the same options.
use rag_ingestion_service.Prelude.{
  inr, inl, Option-cases, Option, Text, [], ap, arith, codes, if◌then◌else◌, none, some, false,
  nat_eq, option_eq, text_eq, refl, ◌++◌, ◌==◌, ◌∷◌, ◌≡◌, ◌∙◌,
}
use rag_ingestion_service.Prelude.Dicts.{
  get-set_if_ne, get-set_ne, set_field, strings, merge, Renders, set_field-Renders, set_if-Renders,
  get-swapped,
}
use mathlib.Core.Option
use rag_ingestion_service.Prelude.Decimal.{decimal}
use rag_ingestion_service.Prelude.Json.{
  Json, Fields, bool, int, str, arr, end, null, float, obj, get_field,
}
use rag_ingestion_service.Docling.Submit.{
  HttpRequest, multipart, json_body, file_request, url_request,
}
use rag_ingestion_service.Docling.Options.{
  ConversionOptions, ChunkingOptions, flag, optional_fields, conversion_form, conversion_json,
  chunking_prefix, chunking_form, chunking_json,
}

-- A value as a field of a form.
unfoldable pub as_form : Json → Json
as_form (bool b) = flag b
as_form (int n) = str (decimal n)
as_form (str t) = str t
as_form (arr xs) = arr xs
as_form null = null
as_form float = float
as_form (obj fs) = obj fs

-- What stands behind the prefix.
unfoldable pub behind : Text → Text → Option Text
behind [] key = some key
behind (p ∷ ps) [] = none
behind (p ∷ ps) (c ∷ key) = let rest = behind ps key in if c == p then rest else none

append_of_behind : (prefix key rest : Text) → behind prefix key ≡ some rest → key ≡ prefix ++ rest
unfolding behind
append_of_behind [] key rest h = cc
append_of_behind (p ∷ ps) [] rest h = cc
append_of_behind (p ∷ ps) (c ∷ key) rest h = ground (arith, append_of_behind ps key rest)

behind-append : (prefix rest : Text) → behind prefix (prefix ++ rest) ≡ some rest
unfolding behind
behind-append [] rest = refl
behind-append (p ∷ ps) rest = ground (arith, behind-append ps rest)

ne_of_behind : (prefix key k : Text) → behind prefix key ≡ none → (key == prefix ++ k) ≡ false
ne_of_behind prefix key k h = ground (arith, behind-append prefix k)

same-append : (prefix k l : Text) → (prefix ++ k == prefix ++ l) ≡ (k == l)
same-append [] k l = refl
same-append (p ∷ ps) k l = ground (arith, same-append ps k l)

module _ (o : ConversionOptions) where
  abbrev same : Text → Text
  same k = k

  flags-Renders :
      Renders same as_form
        (set_field
          (codes "force_ocr")
          (flag o.force_ocr)
          (set_field (codes "do_ocr") (flag o.do_ocr) end))
        (set_field
          (codes "force_ocr")
          (bool o.force_ocr)
          (set_field (codes "do_ocr") (bool o.do_ocr) end))
  unfolding as_form get_field
  flags-Renders =
      set_field-Renders same as_form (λ k l. refl) _ _ _ _ _ refl
        (set_field-Renders same as_form (λ k l. refl) _ _ _ end end refl (λ key. refl))

  -- The two literals name the languages and the mode of tables in another order.
  literal-Renders :
      Renders same as_form
        (set_field (codes "ocr_lang") (arr (strings o.ocr_lang)) (
          set_field (codes "table_mode") (str o.table_mode) (
            set_field
              (codes "force_ocr")
              (flag o.force_ocr)
              (set_field (codes "do_ocr") (flag o.do_ocr) end))))
        (set_field (codes "table_mode") (str o.table_mode) (
          set_field (codes "ocr_lang") (arr (strings o.ocr_lang)) (
            set_field
              (codes "force_ocr")
              (bool o.force_ocr)
              (set_field (codes "do_ocr") (bool o.do_ocr) end))))
  unfolding as_form
  literal-Renders key =
      set_field-Renders same as_form (λ k l. refl) _ _ _ _ _ refl
        (set_field-Renders same as_form (λ k l. refl) _ _ _ _ _ refl flags-Renders) key
      ∙ ap (Option.map as_form)
          (get-swapped key (codes "ocr_lang") (codes "table_mode") _ _ _ (ground arith))

  conversion-Renders : Renders same as_form (conversion_form o) (conversion_json o)
  unfolding conversion_form conversion_json optional_fields as_form
  conversion-Renders =
      set_if-Renders same as_form (λ k l. refl) _ o.pdf_backend _ _ (λ t. refl)
        (set_if-Renders same as_form (λ k l. refl) _ o.ocr_preset _ _ (λ t. refl)
          (set_if-Renders same as_form (λ k l. refl) _ o.ocr_engine _ _ (λ t. refl)
            literal-Renders))

  -- No option of the conversion has the prefix.
  not_prefixed : (key : Text) → get_field (chunking_prefix ++ key) (conversion_form o) ≡ none
  unfolding conversion_form optional_fields text_eq nat_eq get_field
  not_prefixed key =
      get-set_if_ne _ _ o.pdf_backend _ refl
      ∙ get-set_if_ne _ _ o.ocr_preset _ refl
      ∙ get-set_if_ne _ _ o.ocr_engine _ refl
      ∙ get-set_ne _ _ _ _ refl
      ∙ get-set_ne _ _ _ _ refl
      ∙ get-set_ne _ _ _ _ refl
      ∙ get-set_ne _ _ _ _ refl

merged :
    (o : ChunkingOptions) (first : Fields)
    → merge first (chunking_form o)
      ≡ set_field (chunking_prefix ++ codes "merge_peers") (flag o.merge_peers) (
          set_field
            (chunking_prefix ++ codes "max_tokens")
            (str (decimal o.max_tokens))
            (set_field (chunking_prefix ++ codes "tokenizer") (str o.tokenizer) first))
unfolding merge chunking_form set_field text_eq nat_eq
merged o first = refl

module _ (o : ConversionOptions) (c : ChunkingOptions) where
  -- Behind the prefix.
  prefixed-Renders :
      Renders
        (λ k. chunking_prefix ++ k)
        as_form
        (merge (conversion_form o) (chunking_form c))
        (chunking_json c)
  unfolding chunking_json as_form get_field
  prefixed-Renders =
      let rename : Text → Text = λ k. chunking_prefix ++ k in
      rw (merged c (conversion_form o)) (
        set_field-Renders rename as_form (same-append chunking_prefix) _ _ _ _ _ refl (
          set_field-Renders rename as_form (same-append chunking_prefix) _ _ _ _ _ refl (
            set_field-Renders rename as_form (same-append chunking_prefix) _ _ _ _ end refl
              (not_prefixed o))))

  unprefixed :
      (key : Text)
      → behind chunking_prefix key ≡ none
      → get_field key (merge (conversion_form o) (chunking_form c))
        ≡ get_field key (conversion_form o)
  unprefixed key plain = rw (merged c (conversion_form o)) (
      get-set_ne key _ _ _ (ne_of_behind chunking_prefix key (codes "merge_peers") plain)
      ∙ get-set_ne key _ _ _ (ne_of_behind chunking_prefix key (codes "max_tokens") plain)
      ∙ get-set_ne key _ _ _ (ne_of_behind chunking_prefix key (codes "tokenizer") plain))

  -- The option that a form has under a key: one of the chunker's if the key has the prefix, and else
  -- one of the conversion's.
  abbrev pub option_at : Text → Option Text → Option Json
  option_at key (some rest) = get_field rest (chunking_json c)
  option_at key none = get_field key (conversion_json o)

  form_lem :
      (key : Text)
      → get_field key (merge (conversion_form o) (chunking_form c))
        ≡ Option.map as_form (option_at key (behind chunking_prefix key))
  form_lem key = elim (Option-cases (behind chunking_prefix key)) [
    | inr (rest, e) ↦
        rw (append_of_behind chunking_prefix key rest e, behind-append chunking_prefix rest)
          (prefixed-Renders rest)
    | inl e ↦ rw e (unprefixed key e ∙ conversion-Renders o key)
  ]

-- A field of a multipart form.
unfoldable pub form_field : Text → HttpRequest → Option Json
form_field key request = elim request.body [
  | multipart filename payload content_type form ↦ get_field key form
  | json_body fields ↦ none
]

abbrev nested : Text → Option Json → Option Json
nested key (some (obj fields)) = get_field key fields
nested key _ = none

-- An option in a JSON body: behind the prefix one of the chunker's, and else one of the conversion's.
unfoldable pub json_option : Text → HttpRequest → Option Json
unfolding behind
json_option key request = elim request.body [
  | multipart filename payload content_type form ↦ none
  | json_body fields ↦ elim (behind chunking_prefix key) [
    | some rest ↦ nested rest (get_field (codes "chunking_options") fields)
    | none ↦ nested key (get_field (codes "convert_options") fields)
  ]
]

-- The form that a file is submitted with has under each key the option that the same URL would be
-- submitted with, as text: behind the prefix an option of the chunker, and else one of the
-- conversion. A key that the one lacks, the other lacks.
pub requests_lem :
    (base_url : Text) (api_key : Option Text) (filename payload source key : Text)
    (o : ConversionOptions) (c : ChunkingOptions)
    → form_field key (file_request base_url api_key filename payload o c)
      ≡ Option.map as_form (json_option key (url_request base_url api_key source o c))
unfolding form_field json_option file_request url_request get_field text_eq nat_eq
requests_lem base_url api_key filename payload source key o c =
    form_lem o c key ∙ ap (Option.map as_form) (as_nested (behind chunking_prefix key))
  where
    as_nested :
        (found : Option Text)
        → option_at o c key found ≡ elim found [
          | some rest ↦ get_field rest (chunking_json c)
          | none ↦ get_field key (conversion_json o)
        ]
    as_nested (some rest) = refl
    as_nested none = refl
