-- ===== src/Archive/Samples.antt =====
-- app/archive.py: the theorems on an archive with a nested path, a repeated name and a nested zip.
use rag_ingestion_service.Archive.{ok, ZipInfo, plan, place_all, files}
use rag_ingestion_service.Prelude.{
  All, Distinct, List, Text, [], codes, map, nat_eq, option_eq, text_eq, ℕ, ◌↔◌, ◌∷◌, ◌≡◌,
}
use rag_ingestion_service.Settings.{default_settings}
use rag_ingestion_service.Archive.Limits.{plan-ok_iff, IsWithinLimits}
use rag_ingestion_service.Archive.Entries.{place_all-Distinct}
use rag_ingestion_service.Archive.Fit.{place_all-IsFit, IsFit}

abbrev zip_info : Text → ℕ → ZipInfo
zip_info name size = record { filename = name; flag_bits = 0; file_size = size; compress_size = 10 }

abbrev infolist : List ZipInfo
infolist =
    zip_info (codes "docs/report.pdf") 400
    ∷ zip_info (codes "docs/") 0
    ∷ zip_info (codes "old/report.pdf") 500
    ∷ zip_info (codes "old/backup.zip") 70
    ∷ []

plan-ok_iff_example :
    (plan default_settings infolist ≡ ok (place_all default_settings (files infolist)))
    ↔ IsWithinLimits default_settings infolist
plan-ok_iff_example = plan-ok_iff default_settings infolist

place_all-Distinct_example :
    Distinct (map (λ e. e.name) (place_all default_settings infolist).entries)
place_all-Distinct_example = place_all-Distinct default_settings infolist

place_all-IsFit_example : All (IsFit default_settings) (place_all default_settings infolist).entries
place_all-IsFit_example = place_all-IsFit default_settings infolist
