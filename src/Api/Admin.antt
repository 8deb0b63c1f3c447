-- ===== src/Api/Admin.antt =====
-- app/api/admin.py.
use rag_ingestion_service.Prelude.{
  List, Text, if◌then◌else◌, length, map, nat_eq, none, option_eq, some, take, text_eq, ℕ,
}
use rag_ingestion_service.Errors.{http_exception, rag_not_found}
use rag_ingestion_service.Exec.{Exec, pure, raise, gets, ◌>>=◌, ◌>>◌}
use rag_ingestion_service.Models.{ImportBatch, s3, insert_batch, is_alive}
use rag_ingestion_service.Storage.{Item, list_prefix}
use rag_ingestion_service.World.{
  World, on_store, fresh_id, transaction, enqueue_maintenance, import_s3_prefix,
}
use rag_ingestion_service.Jobs.{Worker}
use rag_ingestion_service.Api.{new_batch}
use rag_ingestion_service.Api.Sets.{any_rag}

pub record StagingListing : Type 0 where
  pub listed : ℕ
  pub objects : List (Text × ℕ)

module _ {S I : Type 0} (env : Worker S I) where
  open env use {settings}

  -- The part of `import_from_staging` behind the check of the set.
  unfoldable pub queue_import : ℕ → Text → Exec (World S I) ImportBatch
  queue_import rag_id prefix = do
    batch_id ← fresh_id
    now ← gets (λ (w : World S I). w.now)
    let batch = record (new_batch env now batch_id rag_id) { kind = s3 }
    transaction (λ w. insert_batch batch w.db)
    enqueue_maintenance (import_s3_prefix batch_id prefix)
    pure batch

  -- No owner is asked for: the set has to be there and alive.
  unfoldable pub import_from_staging : ℕ → Text → Exec (World S I) ImportBatch
  unfolding queue_import
  import_from_staging rag_id prefix = do
    found ← gets (λ (w : World S I). any_rag rag_id w.db.rag_sets)
    elim found [
      | none ↦ raise (http_exception 404 rag_not_found)
      | some rag ↦
          if is_alive rag
          then queue_import rag_id prefix
          else raise (http_exception 404 rag_not_found)
    ]

  unfoldable pub list_staging : Text → Exec (World S I) StagingListing
  list_staging prefix = do
    found ← on_store (list_prefix env.s3 settings.s3_bucket_staging prefix)
    pure (record {
      listed = length found;
      objects = map (λ (o : Item). (o.item_key, o.item_size)) (take 500 found);
    })
