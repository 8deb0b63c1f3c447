-- ===== src/Storage/Memory.antt =====
-- An object store in memory, for running the code that uses app/storage/seaweed.py: objects with
-- their bucket and key, the newest first.
use rag_ingestion_service.Prelude.{
  Bool, List, Text, [], length, map, nat_eq, none, not, option_eq, text_eq, ◌&&◌, ◌==◌, ◌∷◌,
}
use rag_ingestion_service.Prelude.Result.{Result, ok, err}
use rag_ingestion_service.Prelude.Filter.{filter}
use rag_ingestion_service.Errors.{Exception, client_error}
use rag_ingestion_service.Storage.{S3}

abbrev pub Memory : Type 0
Memory = List (Text × Text × Text)

abbrev is_at : Text → Text → Text × Text × Text → Bool
is_at bucket key (b, k, body) = b == bucket && k == key

abbrev lookup : Text → Text → Memory → Result Exception Text
lookup bucket key objects = elim (filter (is_at bucket key) objects) [
  | [] ↦ err client_error
  | (b, k, body) ∷ _ ↦ ok body
]

abbrev pub memory : S3 Memory
memory = record {
  put_object = λ bucket key body s. (ok tt, (bucket, key, body) ∷ s);
  upload_fileobj = λ bucket key body s. (ok tt, (bucket, key, body) ∷ s);
  get_object = λ bucket key s. (lookup bucket key s, s);
  generate_presigned_url = λ bucket key ttl s. ok key;
  head_object = λ bucket key s. elim (lookup bucket key s) [
    | ok body ↦ ok (record { content_length = length body; head_etag = none })
    | err e ↦ err e
  ];
  head_bucket = λ bucket s. ok tt;
  create_bucket = λ bucket s. (ok tt, s);
  list_buckets = λ s. ok tt;
  copy_object = λ src_bucket src_key dst_bucket dst_key s. elim (lookup src_bucket src_key s) [
    | ok body ↦ (ok tt, (dst_bucket, dst_key, body) ∷ s)
    | err e ↦ (err e, s)
  ];
  delete_object = λ bucket key s. (ok tt, filter (λ o. not (is_at bucket key o)) s);
  delete_objects = λ bucket keys s. (ok tt, s);
  list_pages = λ bucket prefix recursive s. (
    ok (
        map (λ (b, k, body). record { item_key = k; item_size = length body; item_etag = none }) s
        ∷ []),
    s,
  );
}
