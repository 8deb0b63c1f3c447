-- ===== src/Docling/Options.antt =====
-- app/docling/options.py: the options of the conversion and of the chunker, as the fields of a form and
-- as JSON.
use rag_ingestion_service.Prelude.{
  Bool, List, Option, Text, [], codes, if◌then◌else◌, lower, none, some, true, false, ℕ, ◌++◌, ◌∷◌,
}
use rag_ingestion_service.Prelude.Decimal.{decimal}
use rag_ingestion_service.Prelude.Json.{Json, Fields, bool, int, str, arr, end}
use rag_ingestion_service.Prelude.Dicts.{set_field, set_if, strings}

pub record ConversionOptions : Type 0 where
  pub do_ocr : Bool
  pub force_ocr : Bool
  pub ocr_engine : Option Text
  pub ocr_lang : List Text
  pub ocr_preset : Option Text
  pub table_mode : Text
  pub pdf_backend : Option Text

abbrev pub default_conversion : ConversionOptions
default_conversion = record {
  do_ocr = true;
  force_ocr = false;
  ocr_engine = some (codes "easyocr");
  ocr_lang = codes "ru" ∷ codes "en" ∷ [];
  ocr_preset = none;
  table_mode = codes "accurate";
  pdf_backend = none;
}

-- `str(flag).lower()`
abbrev pub flag : Bool → Json
flag b = str (lower (if b then codes "True" else codes "False"))

-- The three fields that are left out where they are `None` or empty.
unfoldable pub optional_fields : ConversionOptions → Fields → Fields
optional_fields o fs =
    set_if (codes "pdf_backend") o.pdf_backend
      (set_if (codes "ocr_preset") o.ocr_preset (set_if (codes "ocr_engine") o.ocr_engine fs))

unfoldable pub conversion_form : ConversionOptions → Fields
unfolding optional_fields
conversion_form o =
    let literal = set_field (codes "ocr_lang") (arr (strings o.ocr_lang)) (
      set_field (codes "table_mode") (str o.table_mode) (
        set_field (codes "force_ocr") (flag o.force_ocr)
          (set_field (codes "do_ocr") (flag o.do_ocr) end))) in
    optional_fields o literal

unfoldable pub conversion_json : ConversionOptions → Fields
unfolding optional_fields
conversion_json o =
    let literal = set_field (codes "table_mode") (str o.table_mode) (
      set_field (codes "ocr_lang") (arr (strings o.ocr_lang)) (
        set_field (codes "force_ocr") (bool o.force_ocr)
          (set_field (codes "do_ocr") (bool o.do_ocr) end))) in
    optional_fields o literal

pub record ChunkingOptions : Type 0 where
  pub tokenizer : Text
  pub max_tokens : ℕ
  pub merge_peers : Bool

abbrev pub default_chunking : ChunkingOptions
default_chunking = record { tokenizer = codes "BAAI/bge-m3"; max_tokens = 768; merge_peers = true }

abbrev pub chunking_prefix : Text
chunking_prefix = codes "chunking_"

unfoldable pub chunking_form : ChunkingOptions → Fields
chunking_form o = set_field (chunking_prefix ++ codes "merge_peers") (flag o.merge_peers) (
    set_field (chunking_prefix ++ codes "max_tokens") (str (decimal o.max_tokens))
      (set_field (chunking_prefix ++ codes "tokenizer") (str o.tokenizer) end))

unfoldable pub chunking_json : ChunkingOptions → Fields
chunking_json o = set_field (codes "merge_peers") (bool o.merge_peers) (
    set_field (codes "max_tokens") (int o.max_tokens)
      (set_field (codes "tokenizer") (str o.tokenizer) end))
