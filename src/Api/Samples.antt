-- ===== src/Api/Samples.antt =====
-- app/api/rags.py: the theorems on a set of one owner and an object that does not fit.
use rag_ingestion_service.Repo.Order.{IsListing}
use rag_ingestion_service.Prelude.{
  lower, List, [], arith, codes, if◌then◌else◌, length, map, nat_eq, none, option_eq, refl, some,
  text_eq, true, ℕ, ◌++◌, ◌+◌, ◌==◌, ◌∷◌, ◌≡◌, ◌≤◌,
}
use rag_ingestion_service.Prelude.Result.{ok, err}
use rag_ingestion_service.Prelude.Filter.{filter, sum_of, any}
use rag_ingestion_service.Exec.{pure}
use rag_ingestion_service.Settings.{default_settings}
use rag_ingestion_service.Models.{RagSet, empty_db}
use rag_ingestion_service.Repo
use rag_ingestion_service.Search.{OpenSearch}
use rag_ingestion_service.Storage.{RemoteObject}
use rag_ingestion_service.Storage.Memory.{Memory, memory}
use rag_ingestion_service.World.{World, purge_rag}
use rag_ingestion_service.Jobs.{Worker}
use rag_ingestion_service.Api.{
  UploadFile, upload_documents, delete_rag, documents_of_rag, remove_document, import_archive,
  batch_of_rag,
}
use rag_ingestion_service.Api.Access.{IsDenied, handlers-IsDenied}
use rag_ingestion_service.Api.Deletion.{delete_rag_lem}
use rag_ingestion_service.Api.Remote.{
  DocumentsFromBucketIn, add_documents_from_bucket, fit_objects, fit_objects_lem,
}
use rag_ingestion_service.Errors.{http_exception, name_taken}
use rag_ingestion_service.Repo.{counts_for}
use rag_ingestion_service.Api.Sets
use rag_ingestion_service.Api.Sets.{RagCreate, to_out, create_rag, list_rags}
use rag_ingestion_service.Api.Updates.{RagUpdate, update_rag, get_icon}
use rag_ingestion_service.Api.Schemas.{create_passes}
use rag_ingestion_service.Api.Internal.{internal_rag}
use rag_ingestion_service.Api.Creation.{creation, create_rag_lem, list_rags_lem, update_rag_null}

abbrev pub client : OpenSearch ℕ
client = record {
  index_exists = pure true;
  create_index = pure tt;
  search_hashes = λ rag_id document_id. pure [];
  bulk = λ actions i. (ok (length actions, 0), i + length actions);
  refresh = pure tt;
  delete_by_query = λ rag_id document_id. pure 0;
}

abbrev pub env : Worker Memory ℕ
env = record {
  s3 = memory;
  client = client;
  settings = default_settings;
  digest = λ t. t;
  render = λ id. id ∷ [];
  message = λ e. codes "error";
  chunker = λ source rag_id document_id. ok [];
  embedder = λ texts. ok [];
  closing = ok tt;
  open_zip = λ raw. ok [];
  read_entry = λ raw name. ok (codes "body");
}

abbrev rag : RagSet
rag = record {
  id = 1;
  owner_id = 7;
  name = codes "set";
  description = none;
  prompt = none;
  temperature = 200;
  top_k = 5;
  score_threshold = 350;
  icon_key = none;
  created_at = 1;
  updated_at = 1;
  deleted_at = none;
}

abbrev pub world : World Memory ℕ
world = record {
  db = record empty_db { rag_sets = rag ∷ [] };
  store = [];
  index = 0;
  ingest_queue = [];
  maintenance_queue = [];
  now = 9;
  next_id = 20;
}

abbrev pub file : UploadFile
file = record {
  upload_filename = some (codes "a.zip");
  content_type = none;
  body = codes "ab" ∷ [];
}

abbrev payload : DocumentsFromBucketIn
payload = record {
  bucket = codes "b";
  prefix = some (codes "in/");
  keys = [];
  recursive = true;
  extensions = [];
}

abbrev no_name : RagUpdate
no_name = record {
  name = some none;
  description = none;
  prompt = none;
  temperature = none;
  top_k = none;
  score_threshold = none;
}

handlers-IsDenied_example :
    IsDenied env (upload_documents env 1 (file ∷ []) 8) world
    × IsDenied env (add_documents_from_bucket env 1 payload 8) world
    × IsDenied env (delete_rag env 1 8) world
    × IsDenied env (documents_of_rag env 1 8) world
    × IsDenied env (remove_document env 1 5 8) world
    × IsDenied env (import_archive env 1 file 8) world
    × IsDenied env (batch_of_rag env 1 4 8) world
    × IsDenied env (Sets.get_rag env lower 1 8) world
    × IsDenied env (update_rag env lower 1 no_name 8) world
    × IsDenied env (get_icon env lower 1 8) world
    × IsDenied env (internal_rag env 1 8) world
unfolding Repo.get_rag filter nat_eq
handlers-IsDenied_example =
    handlers-IsDenied env 1 8 5 4 (file ∷ []) file payload no_name lower world refl

delete_rag_lem_example :
    let (r, w) = delete_rag env 1 7 world in
    (r ≡ ok tt)
    × ((other owner_id : ℕ)
        → Repo.get_rag w.db other owner_id
          ≡ (if other == 1 then none else Repo.get_rag world.db other owner_id))
    × (w.db.documents ≡ [])
    × (w.maintenance_queue ≡ purge_rag 1 ∷ [])
unfolding Repo.get_rag filter nat_eq
delete_rag_lem_example = delete_rag_lem env 1 7 rag world refl

abbrev objects : List RemoteObject
objects =
    record { key = codes "a"; size = 4; etag = [] }
    ∷ record { key = codes "b"; size = 9; etag = [] }
    ∷ record { key = codes "c"; size = 1; etag = [] }
    ∷ []

fit_objects_lem_example :
    let (fitting, oversized) = fit_objects 10 5 objects in
    (5 + sum_of (λ o. o.size) fitting ≤ 10)
    × (map (λ o. o.key) fitting ++ map (λ r. r.source_key) oversized ≡ map (λ o. o.key) objects)
fit_objects_lem_example = fit_objects_lem 10 5 objects (omega arith)

abbrev pub second : RagCreate
second = record {
  name = codes "second";
  description = none;
  prompt = none;
  temperature = 200;
  top_k = 5;
  score_threshold = 350;
}

create_rag_lem_example : create_rag env lower second 7 world ≡ creation env lower second 7 world
unfolding create_passes any nat_eq
create_rag_lem_example = create_rag_lem env lower second 7 world (omega arith) refl refl

list_rags_lem_example :
    (rags : List RagSet) × IsListing world.db 7 rags
    × (list_rags env lower 7 world
        ≡ (ok (map (λ (r : RagSet). to_out r (counts_for world.db r.id)) rags), world))
list_rags_lem_example = list_rags_lem env lower 7 world

update_rag_null_example :
    update_rag env lower 1 no_name 7 world ≡ (err (http_exception 409 name_taken), world)
unfolding Repo.get_rag filter nat_eq rag_ingestion_service.Api.Schemas.update_passes
update_rag_null_example = update_rag_null env lower 1 7 rag no_name world refl refl refl
