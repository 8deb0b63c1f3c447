-- ===== src/BucketImport.antt =====
-- app/bucket_import.py: which objects of a foreign bucket are taken.
pub mod Accepted
pub mod Partition
mod Samples
use rag_ingestion_service.Prelude.{
  Bool, List, Text, [], contains, dot, false, foldl, if◌then◌else◌, is_empty, leb, length, lower,
  ltb, map, nat_eq, not, option_eq, text_eq, ℕ, ◌++◌, ◌+◌, ◌==◌, ◌||◌, ◌∷◌,
}
use rag_ingestion_service.Prelude.Filter.{filter}
use rag_ingestion_service.Settings.{Settings}
use rag_ingestion_service.Storage.{RemoteObject, suffix}

-- The messages of a rejection.
pub data Reason : Type 0 where
  no_suffix empty_file repeated_in_prefix already_in_set set_too_large object_not_found : Reason
  unsupported_suffix : Text → Reason
  too_large too_many : ℕ → Reason

pub record Rejected : Type 0 where
  pub source_key : Text
  pub reason : Reason

pub record Selection : Type 0 where
  pub accepted : List RemoteObject
  pub rejected : List Rejected

unfoldable pub total : Selection → ℕ
total sel = length sel.accepted + length sel.rejected

-- `s.lstrip(".")`
drop_dots : Text → Text
drop_dots [] = []
drop_dots (c ∷ s) = let rest = drop_dots s in if c == dot then rest else c ∷ s

-- `bool(ext.strip(". "))`: there is a character that is neither a dot nor a space.
has_letters : Text → Bool
has_letters [] = false
has_letters (c ∷ s) = not (c == dot || c == b' ') || has_letters s

-- The set that `normalize_extensions` returns, as the list of the allowed suffixes in it.
unfoldable pub normalize_extensions : Settings → List Text → List Text
unfolding drop_dots has_letters
normalize_extensions s requested =
    let asked = map (λ ext. dot ∷ drop_dots (lower ext)) (filter has_letters requested) in
    if is_empty requested then s.allowed_suffixes else filter (contains asked) s.allowed_suffixes

-- The variables of the loop of `select`.
pub record Sorting : Type 0 where
  pub accepted : List RemoteObject
  pub rejected : List Rejected
  pub seen : List Text

pub reject : Sorting → RemoteObject → Reason → Sorting
reject w obj reason = record w {
  rejected = w.rejected ++ record { source_key = obj.key; reason = reason } ∷ [];
}

module _ (digest : Text → Text) where
  -- `f"{bucket}:{obj.etag}"`, digested
  unfoldable pub content_hash_for : Text → RemoteObject → Text
  content_hash_for bucket obj = digest (bucket ++ (b':' ∷ obj.etag))

  module _ (s : Settings) (bucket : Text) where
    -- The body of the loop of `select`.
    pub sort_object : List Text → Sorting → RemoteObject → Sorting
    unfolding reject
    sort_object suffixes w obj =
        if is_empty (suffix obj)
        then reject w obj no_suffix
        else if not (contains suffixes (suffix obj))
        then reject w obj (unsupported_suffix (suffix obj))
        else if obj.size == 0
        then reject w obj empty_file
        else if ltb s.bucket_import_max_file_size obj.size
        then reject w obj (too_large s.bucket_import_max_file_size)
        else if leb s.bucket_import_max_files (length w.accepted)
        then reject w obj (too_many s.bucket_import_max_files)
        else if contains w.seen (content_hash_for bucket obj)
        then reject w obj repeated_in_prefix
        else record {
          accepted = w.accepted ++ obj ∷ [];
          rejected = w.rejected;
          seen = content_hash_for bucket obj ∷ w.seen;
        }

    unfoldable pub select : List RemoteObject → List Text → Selection
    unfolding sort_object
    select objects extensions =
        let suffixes = normalize_extensions s extensions in
        let w =
          foldl (sort_object suffixes) (record { accepted = []; rejected = []; seen = [] })
            objects in
        record { accepted = w.accepted; rejected = w.rejected }

  -- The body of the loop of `drop_known`.
  drop_object : Text → List Text → Selection → RemoteObject → Selection
  drop_object bucket known_hashes sel obj =
      if contains known_hashes (content_hash_for bucket obj)
      then record sel {
        rejected = sel.rejected ++ record { source_key = obj.key; reason = already_in_set } ∷ [];
      }
      else record sel { accepted = sel.accepted ++ obj ∷ [] }

  unfoldable pub drop_known : Text → Selection → List Text → Selection
  unfolding drop_object
  drop_known bucket sel known_hashes =
      if is_empty known_hashes
      then sel
      else foldl (drop_object bucket known_hashes)
          (record { accepted = []; rejected = sel.rejected }) sel.accepted
