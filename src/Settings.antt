-- ===== src/Settings.antt =====
-- app/config.py: the settings that the modelled code reads, with their defaults.
use rag_ingestion_service.Prelude.{ℕ, ◌*◌, ◌^◌, List, [], ◌∷◌, Bool, true, false, Text, codes}

pub record Settings : Type 0 where
  pub host : Text
  pub port : ℕ
  -- 0 where the internal application is not served by itself
  pub internal_port : ℕ
  pub internal_host : Text
  pub reload : Bool
  pub index_name : Text
  pub refresh_after_load : Bool
  pub embed_batch_size : ℕ
  pub max_upload_mb : ℕ
  pub docling_transfer : Text
  pub s3_bucket_docs : Text
  pub presign_ttl_seconds : ℕ
  pub s3_bucket_icons : Text
  pub s3_bucket_staging : Text
  pub archive_max_entries : ℕ
  pub archive_max_uncompressed : ℕ
  -- a float in the source; the ratio test is made on whole numbers here
  pub archive_max_ratio : ℕ
  pub archive_max_file_size : ℕ
  pub icon_max_bytes : ℕ
  pub icon_allowed_types : List Text
  pub rag_top_k_max : ℕ
  pub rag_prompt_max_chars : ℕ
  pub rag_max_sets_per_owner : ℕ
  pub bucket_import_max_file_size : ℕ
  pub bucket_import_max_files : ℕ
  pub rag_max_bytes_per_set : ℕ
  pub allowed_suffixes : List Text

abbrev pub default_settings : Settings
default_settings = record {
  host = codes "127.0.0.1";
  port = 8011;
  internal_port = 8012;
  internal_host = codes "127.0.0.1";
  reload = false;
  index_name = codes "kb-v2";
  refresh_after_load = true;
  embed_batch_size = 16;
  max_upload_mb = 200;
  docling_transfer = codes "url";
  s3_bucket_docs = codes "rag-docs";
  presign_ttl_seconds = 3600;
  s3_bucket_icons = codes "rag-icons";
  s3_bucket_staging = codes "rag-staging";
  archive_max_entries = 2000;
  archive_max_uncompressed = 5 * 1024 ^ 3;
  archive_max_ratio = 120;
  archive_max_file_size = 200 * 1024 ^ 2;
  icon_max_bytes = 512 * 1024;
  icon_allowed_types = codes "image/png" ∷ codes "image/jpeg" ∷ codes "image/webp" ∷ [];
  rag_top_k_max = 10;
  rag_prompt_max_chars = 4000;
  rag_max_sets_per_owner = 50;
  bucket_import_max_file_size = 50 * 1024 ^ 2;
  bucket_import_max_files = 500;
  rag_max_bytes_per_set = 20 * 1024 ^ 3;
  allowed_suffixes =
      codes ".pdf"
      ∷ codes ".docx"
      ∷ codes ".pptx"
      ∷ codes ".xlsx"
      ∷ codes ".html"
      ∷ codes ".htm"
      ∷ codes ".md"
      ∷ codes ".txt"
      ∷ codes ".csv"
      ∷ codes ".png"
      ∷ codes ".jpg"
      ∷ codes ".jpeg"
      ∷ codes ".tiff"
      ∷ [];
}
