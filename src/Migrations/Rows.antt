-- ===== src/Migrations/Rows.antt =====
-- The rows of app/db/models.py as the checks of alembic/versions see them: the columns that a
-- check reads, with their words of the database. A check that reads a null passes.
use rag_ingestion_service.Prelude.{
  Bool, List, Option, Text, [], codes, contains, false, if◌then◌else◌, leb, nat_eq, none, option_eq,
  some, text_eq, true, ℕ, ◌&&◌, ◌==◌, ◌∷◌,
}
use rag_ingestion_service.Models.{
  RagSet, ImportBatch, Document, BatchKind, DocumentStatus, Origin, archive, s3, pending,
  processing, success, failed, from_upload, from_archive, from_s3, from_bucket,
}
use rag_ingestion_service.Migrations.{
  Condition, Constraint, Table, in_range, one_of, check, primary_key, foreign_key, unique_columns,
}

pub data Cell : Type 0 where
  number : ℕ → Cell
  word : Text → Cell

abbrev pub Row : Type 0
Row = List (Text × Cell)

unfoldable pub cell : Text → Row → Option Cell
cell column [] = none
cell column ((name, value) ∷ row) = if name == column then some value else cell column row

unfoldable pub holds : Condition → Row → Bool
unfolding cell
holds (in_range column lo hi) row = elim (cell column row) [
  | some (number n) ↦ leb lo n && leb n hi
  | some (word _) ↦ false
  | none ↦ true
]
holds (one_of column words) row = elim (cell column row) [
  | some (word w) ↦ contains words w
  | some (number _) ↦ false
  | none ↦ true
]

unfoldable pub all_hold : List Constraint → Row → Bool
unfolding holds
all_hold [] row = true
all_hold (check condition _ ∷ rest) row = holds condition row && all_hold rest row
all_hold (primary_key _ ∷ rest) row = all_hold rest row
all_hold (foreign_key _ _ _ ∷ rest) row = all_hold rest row
all_hold (unique_columns _ _ ∷ rest) row = all_hold rest row

-- The checks of the table of that name let the row in.
unfoldable pub admits : List Table → Text → Row → Bool
unfolding all_hold
admits [] name row = true
admits (t ∷ ts) name row =
    let rest = admits ts name row in
    if t.name == name then all_hold t.constraints row && rest else rest

abbrev pub kind_word : BatchKind → Text
kind_word archive = codes "archive"
kind_word s3 = codes "s3"

abbrev pub status_word : DocumentStatus → Text
status_word pending = codes "pending"
status_word processing = codes "processing"
status_word success = codes "success"
status_word failed = codes "failed"

abbrev pub origin_word : Origin → Text
origin_word from_upload = codes "upload"
origin_word from_archive = codes "archive"
origin_word from_s3 = codes "s3"
origin_word from_bucket = codes "bucket"

abbrev pub rag_row : RagSet → Row
rag_row rag =
    (codes "temperature", number rag.temperature)
    ∷ (codes "top_k", number rag.top_k)
    ∷ (codes "score_threshold", number rag.score_threshold)
    ∷ []

abbrev pub batch_row : ImportBatch → Row
batch_row batch = (codes "kind", word (kind_word batch.kind)) ∷ []

abbrev pub document_row : Document → Row
document_row d =
    (codes "origin", word (origin_word d.origin))
    ∷ (codes "status", word (status_word d.status))
    ∷ []
