-- ===== src/Storage.antt =====
-- app/storage/seaweed.py: objects in an S3 store. The store is not in the repository: what the
-- service calls of boto3 is the record `S3`, over a state `S`, and each call may raise.
pub mod Listing
pub mod Upload
pub mod Buckets
pub mod Memory
mod Samples
use rag_ingestion_service.Prelude.{
  Bool, List, Option, Text, [], after_last, contains, dot, ends_with, false, if◌then◌else◌, leb,
  length, lower, ltb, map, nat_eq, none, option_eq, slash, some, text_eq, true, ℕ, ◌++◌, ◌+◌, ◌==◌,
  ◌∷◌,
}
use rag_ingestion_service.Prelude.Result.{Result, ok, err}
use rag_ingestion_service.Prelude.Slices.{slices}
use rag_ingestion_service.Errors.{Exception, over_limit}
use rag_ingestion_service.Exec.{Exec, pure, raise, ◌>>=◌, ◌>>◌}
use mathlib.Core.List.{reverse, flatten}

-- An object of a foreign bucket that was not read.
pub record RemoteObject : Type 0 where
  pub key : Text
  pub size : ℕ
  pub etag : Text

unfoldable pub filename : RemoteObject → Text
filename obj = after_last slash obj.key

-- `"." + name.rsplit(".", 1)[-1].lower() if "." in name else ""`
unfoldable pub suffix_of : Text → Text
suffix_of name = if contains name dot then dot ∷ lower (after_last dot name) else []

unfoldable pub suffix : RemoteObject → Text
unfolding filename suffix_of
suffix obj = suffix_of (filename obj)

pub record StoredObject : Type 0 where
  pub key : Text
  pub size_bytes : ℕ
  pub content_hash : Text

-- One of the `Contents` of a page of a listing.
pub record Item : Type 0 where
  pub item_key : Text
  pub item_size : ℕ
  pub item_etag : Option Text

-- The answer to `head_object`.
pub record Head : Type 0 where
  pub content_length : ℕ
  pub head_etag : Option Text

-- The calls of the boto3 client. A page of a listing without `Contents` is empty.
pub record S3 (S : Type 0) : Type 0 where
  pub put_object : Text → Text → Text → Exec S (Unit {0})
  -- the managed transfer of a whole file, which cuts a long one into parts
  pub upload_fileobj : Text → Text → Text → Exec S (Unit {0})
  pub get_object : Text → Text → Exec S Text
  -- the signed link to an object, for the given number of seconds
  pub generate_presigned_url : Text → Text → ℕ → S → Result Exception Text
  -- `err` is a `ClientError`
  pub head_object : Text → Text → S → Result Exception Head
  pub head_bucket : Text → S → Result Exception (Unit {0})
  pub copy_object : Text → Text → Text → Text → Exec S (Unit {0})
  pub delete_object : Text → Text → Exec S (Unit {0})
  pub delete_objects : Text → List Text → Exec S (Unit {0})
  pub create_bucket : Text → Exec S (Unit {0})
  pub list_buckets : S → Result Exception (Unit {0})
  -- bucket, prefix, and whether the listing goes below one level
  pub list_pages : Text → Text → Bool → Exec S (List (List Item))

drop_leading : ℕ → Text → Text
drop_leading c [] = []
drop_leading c (d ∷ s) = let rest = drop_leading c s in if d == c then rest else d ∷ s

-- `str(etag or "").strip('"')`
unfoldable pub unquote : Option Text → Text
unfolding drop_leading
unquote none = []
unquote (some t) = reverse (drop_leading b'"' (reverse (drop_leading b'"' t)))

unfoldable pub to_remote : Item → RemoteObject
to_remote item = record {
  key = item.item_key;
  size = item.item_size;
  etag = unquote item.item_etag;
}

-- The loops of `list_objects`, with the objects so far. `err` is the early return.
scan_page : ℕ → List Item → List RemoteObject → Result (List RemoteObject) (List RemoteObject)
unfolding ends_with
scan_page limit [] objects = ok objects
scan_page limit (item ∷ items) objects =
    let objects' = objects ++ to_remote item ∷ [] in
    let passed = scan_page limit items objects in
    let next = scan_page limit items objects' in
    if ends_with item.item_key (slash ∷ [])
    then passed
    else if leb limit (length objects')
    then err objects'
    else next

scan_pages : ℕ → List (List Item) → List RemoteObject → List RemoteObject
scan_pages limit [] objects = objects
scan_pages limit (page ∷ pages) objects = elim (scan_page limit page objects) [
  | ok objects' ↦ scan_pages limit pages objects'
  | err objects' ↦ objects'
]

unfoldable pub collect_pages : ℕ → List (List Item) → List RemoteObject
unfolding scan_page scan_pages
collect_pages limit pages = scan_pages limit pages []

-- `f"{rag_id}/{document_id}/{filename}"`
unfoldable pub document_key : Text → Text → Text → Text
document_key rag_id document_id name = rag_id ++ (slash ∷ document_id ++ (slash ∷ name))

-- The loop of `stream_upload`: the bytes in the buffer and how many were written.
fill_buffer : ℕ → List Text → ℕ → Text → Result Exception (ℕ × Text)
fill_buffer limit_bytes [] written buffer = ok (written, buffer)
fill_buffer limit_bytes (chunk ∷ chunks) written buffer =
    let written' = written + length chunk in
    let rest = fill_buffer limit_bytes chunks written' (buffer ++ chunk) in
    if ltb limit_bytes written' then err (over_limit limit_bytes) else rest

module _ {S : Type 0} (s3 : S3 S) where
  unfoldable pub put_bytes : Text → Text → Text → Exec S (Unit {0})
  put_bytes bucket key payload = s3.put_object bucket key payload

  unfoldable pub get_bytes : Text → Text → Exec S Text
  get_bytes bucket key = s3.get_object bucket key

  unfoldable pub presigned_get : Text → Text → ℕ → Exec S Text
  presigned_get bucket key ttl s = (s3.generate_presigned_url bucket key ttl s, s)

  -- The length that the store reports for the copy.
  unfoldable pub copy : Text → Text → Text → Text → Exec S ℕ
  copy src_bucket src_key dst_bucket dst_key = do
    s3.copy_object src_bucket src_key dst_bucket dst_key
    head ← λ s. (s3.head_object dst_bucket dst_key s, s)
    pure head.content_length

  unfoldable pub list_prefix : Text → Text → Exec S (List Item)
  list_prefix bucket prefix = do pages ← s3.list_pages bucket prefix true; pure (flatten pages)

  unfoldable pub head_object : Text → Text → S → Option RemoteObject
  head_object bucket key s = elim (s3.head_object bucket key s) [
    | ok head ↦
        some (record { key = key; size = head.content_length; etag = unquote head.head_etag })
    | err _ ↦ none
  ]

  unfoldable pub bucket_exists : Text → S → Bool
  bucket_exists bucket s = elim (s3.head_bucket bucket s) [ ok _ ↦ true | err _ ↦ false ]

  unfoldable pub list_objects : Text → Text → Bool → ℕ → Exec S (List RemoteObject)
  unfolding collect_pages
  list_objects bucket prefix recursive limit = do
    pages ← s3.list_pages bucket prefix recursive
    pure (collect_pages limit pages)

  unfoldable pub delete : Text → Text → Exec S (Unit {0})
  delete bucket key = s3.delete_object bucket key

  delete_batches : Text → List (List Text) → ℕ → Exec S ℕ
  delete_batches bucket [] deleted = pure deleted
  delete_batches bucket (batch ∷ batches) deleted = do
    s3.delete_objects bucket batch
    delete_batches bucket batches (deleted + length batch)

  -- `delete_objects` takes a thousand keys at most.
  unfoldable pub delete_prefix : Text → Text → Exec S ℕ
  unfolding list_prefix delete_batches
  delete_prefix bucket prefix = do
    items ← list_prefix bucket prefix
    delete_batches bucket (slices 1000 (map (λ i. i.item_key) items)) 0

  -- `digest` is hashlib's blake2b of 16 bytes, as hexadecimal digits.
  unfoldable pub stream_upload : (Text → Text) → Text → Text → List Text → ℕ → Exec S StoredObject
  unfolding fill_buffer
  stream_upload digest bucket key chunks limit_bytes = do
    (written, buffer) ← λ s. (fill_buffer limit_bytes chunks 0 [], s)
    s3.upload_fileobj bucket key buffer
    pure (record { key = key; size_bytes = written; content_hash = digest buffer })
