-- ===== src/Jobs/Archives.antt =====
-- app/tasks/jobs.py: `expand_archive`.
use rag_ingestion_service.Prelude.{
  Bool, not, List, Option, Text, [], if◌then◌else◌, length, map, nat_eq, none, option_eq, some,
  take, text_eq, ℕ, ◌+◌, ◌==◌, ◌∷◌,
}
use rag_ingestion_service.Prelude.Result.{Result, ok, err}
use rag_ingestion_service.Prelude.Filter.{filter}
use rag_ingestion_service.Archive.{ArchiveEntry, ArchivePlan, ArchiveRejected, plan}
use rag_ingestion_service.Errors.{Exception, archive_rejected}
use rag_ingestion_service.Exec.{Exec, pure, gets, modify, lift, ◌>>=◌, ◌>>◌}
use rag_ingestion_service.Models.{
  is_none, Db, ImportBatch, from_archive, BatchStatus, batch_processing, batch_success,
  batch_rejected, batch_failed,
}
use rag_ingestion_service.Repo.{finish_batch, scalar_one_or_none}
use rag_ingestion_service.Storage.{get_bytes, delete}
use rag_ingestion_service.World.{World, on_store, write}
use rag_ingestion_service.Jobs.{Worker, register_document, finally}

-- `batch.status = "processing"`
abbrev pub start_batch : {S I : Type 0} → ℕ → World S I → Db
start_batch batch_id w = record w.db {
  import_batches =
      map (λ b. if b.id == batch_id then record b { status = batch_processing } else b)
        w.db.import_batches;
}

abbrev pub close_batch :
    {S I : Type 0} → ℕ → BatchStatus → ℕ → ℕ → ℕ → Option Text → World S I → World S I
close_batch batch_id status created skipped total error w = record w {
  db = finish_batch w.now batch_id status created skipped total error w.db;
}

abbrev pub find_batch : {S I : Type 0} → ℕ → World S I → Option ImportBatch
find_batch batch_id w = scalar_one_or_none (filter (λ b. b.id == batch_id) w.db.import_batches)

-- A counter of the loop, one higher on the given condition.
abbrev pub tally : ℕ → Bool → ℕ
tally n counted = if counted then n + 1 else n

unfoldable pub raised_plan : Result ArchiveRejected ArchivePlan → Result Exception ArchivePlan
raised_plan (ok p) = ok p
raised_plan (err e) = err (archive_rejected e)

module _ {S I : Type 0} (env : Worker S I) where
  open env use {s3, settings, message}

  -- The loop over the entries, with `created` and `skipped`.
  unfoldable pub register_entries :
      ℕ → ℕ → Text → List ArchiveEntry → ℕ → ℕ → Exec (World S I) (ℕ × ℕ)
  register_entries rag_id batch_id raw [] created skipped = pure (created, skipped)
  register_entries rag_id batch_id raw (item ∷ items) created skipped = do
    payload ← lift (env.read_entry raw item.raw_name)
    document_id ← register_document env rag_id item.name payload from_archive batch_id
    register_entries rag_id batch_id raw items (tally created (not (is_none document_id)))
        (tally skipped (is_none document_id))

  unfoldable pub expand_body : ℕ → Text → Exec (World S I) ℕ
  unfolding register_entries raised_plan
  expand_body batch_id staging_key = do
    found ← gets (find_batch batch_id)
    elim found [
      | none ↦ pure 0
      | some batch ↦ do
        write (start_batch batch_id)
        raw ← on_store (get_bytes s3 settings.s3_bucket_staging staging_key)
        infolist ← lift (env.open_zip raw)
        archive_plan ← lift (raised_plan (plan settings infolist))
        (created, skipped) ←
            register_entries batch.rag_id batch_id raw archive_plan.entries 0
              (length archive_plan.skipped)
        modify (close_batch batch_id batch_success created skipped (created + skipped) none)
        pure created
    ]

  -- `except ArchiveRejected`: the batch is closed and nothing is raised; any other exception
  -- closes it too and goes on.
  unfoldable pub handle_failure :
      ℕ → Result Exception ℕ → World S I → Result Exception ℕ × World S I
  handle_failure batch_id (ok created) w = (ok created, w)
  handle_failure batch_id (err (archive_rejected e)) w =
      (ok 0, close_batch batch_id batch_rejected 0 0 0 (some (message (archive_rejected e))) w)
  handle_failure batch_id (err e) w =
      (err e, close_batch batch_id batch_failed 0 0 0 (some (take 2000 (message e))) w)

  -- `_expand_archive`. The archive is removed from staging however it ends.
  unfoldable pub expand_archive : ℕ → Text → Exec (World S I) ℕ
  unfolding expand_body handle_failure
  expand_archive batch_id staging_key =
      finally
        (λ w. let (r, w') = expand_body batch_id staging_key w in handle_failure batch_id r w')
        (on_store (delete s3 settings.s3_bucket_staging staging_key))
