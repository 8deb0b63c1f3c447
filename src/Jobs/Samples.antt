-- ===== src/Jobs/Samples.antt =====
-- app/tasks/jobs.py: the theorems on a worker over a store in memory.
use rag_ingestion_service.Prelude.{
  List, [], codes, length, nat_eq, none, option_eq, refl, some, text_eq, true, ℕ, ◌+◌, ◌∷◌, ◌≡◌,
}
use rag_ingestion_service.Models.{RagSet, Document, from_upload, from_archive, pending, empty_db}
use rag_ingestion_service.Prelude.Result.{ok}
use rag_ingestion_service.Prelude.Filter.{filter}
use rag_ingestion_service.Exec.{pure}
use rag_ingestion_service.Settings.{default_settings}
use rag_ingestion_service.Search.{OpenSearch}
use rag_ingestion_service.Storage.Memory.{Memory, memory}
use rag_ingestion_service.World.{World}
use rag_ingestion_service.Jobs.{Worker, register_document, ingest_document, purge_document}
use rag_ingestion_service.Archive.{ArchiveEntry}
use rag_ingestion_service.Jobs.Archives.{register_entries}
use rag_ingestion_service.Jobs.Backed.{register_entries-Keeps}
use rag_ingestion_service.Jobs.Counts.{register_entries_lem}
use rag_ingestion_service.Jobs.Purge.{purge_document_foreign}
use rag_ingestion_service.Jobs.Ingest.{IsSettled, ingest_document-IsSettled}
use rag_ingestion_service.Jobs.Register.{HasRows}

abbrev client : OpenSearch ℕ
client = record {
  index_exists = pure true;
  create_index = pure tt;
  search_hashes = λ rag_id document_id. pure [];
  bulk = λ actions i. (ok (length actions, 0), i + length actions);
  refresh = pure tt;
  delete_by_query = λ rag_id document_id. pure 0;
}

abbrev env : Worker Memory ℕ
env = record {
  s3 = memory;
  client = client;
  settings = default_settings;
  digest = λ t. t;
  render = λ id. id ∷ [];
  message = λ e. codes "error";
  chunker = λ source rag_id document_id. ok [];
  embedder = λ texts. ok [];
  closing = ok tt;
  open_zip = λ raw. ok [];
  read_entry = λ raw name. ok (codes "body");
}

abbrev document : Document
document = record {
  id = 5;
  rag_id = 1;
  filename = codes "a.pdf";
  size_bytes = 4;
  content_hash = codes "h";
  storage_key = codes "k";
  source_bucket = none;
  origin = from_upload;
  origin_ref = none;
  status = pending;
  error = none;
  chunks_count = 0;
  created_at = 3;
  updated_at = 3;
}

abbrev rag : RagSet
rag = record {
  id = 1;
  owner_id = 7;
  name = codes "set";
  description = none;
  prompt = none;
  temperature = 200;
  top_k = 5;
  score_threshold = 350;
  icon_key = none;
  created_at = 1;
  updated_at = 1;
  deleted_at = none;
}

abbrev world : World Memory ℕ
world = record {
  db = record empty_db { rag_sets = rag ∷ []; documents = document ∷ [] };
  store = [];
  index = 0;
  ingest_queue = 5 ∷ [];
  maintenance_queue = [];
  now = 9;
  next_id = 20;
}

ingest_document-IsSettled_example :
    let (r, w) = ingest_document env 5 world in IsSettled env 5 r w.db
unfolding filter nat_eq
ingest_document-IsSettled_example = ingest_document-IsSettled env 5 world document refl

purge_document_foreign_example :
    let w = (purge_document env (codes "r") (codes "d") (codes "k") (some (codes "b")) world).1 in
    (w.store ≡ []) × (w.db ≡ world.db)
purge_document_foreign_example =
    purge_document_foreign env (codes "r") (codes "d") (codes "k") (codes "b") world

abbrev entries : List ArchiveEntry
entries = record { name = codes "b.pdf"; size = 4; raw_name = codes "in/b.pdf" } ∷ []

register_entries-Keeps_example :
    HasRows (register_entries env 1 3 (codes "zip") entries 0 2 world).1
unfolding rag_ingestion_service.Prelude.Filter.any nat_eq
register_entries-Keeps_example =
    register_entries-Keeps env 1 3 (codes "zip") entries 0 2 world (refl, tt)

register_entries_lem_example : 1 + 2 ≡ 0 + 2 + length entries
unfolding register_entries register_document rag_ingestion_service.Repo.find_by_hash filter nat_eq
    text_eq rag_ingestion_service.Storage.put_bytes rag_ingestion_service.Models.insert_document
    rag_ingestion_service.Prelude.Filter.any rag_ingestion_service.Repo.record_job
    rag_ingestion_service.Models.insert_job
register_entries_lem_example =
    register_entries_lem env 1 3 (codes "zip") entries 0 2 1 2 world
      (register_entries env 1 3 (codes "zip") entries 0 2 world).1 refl
