-- ===== src/BucketImport/Accepted.antt =====
-- app/bucket_import.py: what `select` and `drop_known` accept.
use rag_ingestion_service.Prelude.{
  Bool, All-imp, leb, ltb, ◌==◌, not, is_empty, All, All-append, Distinct, Distinct-snoc, List,
  Text, [], arith, contains, contains-append, false, foldl, foldl_inv, if_ind, length,
  length-append, map, nat_eq, option_eq, refl, text_eq, true, ◌++◌, ◌<◌, ◌∷◌, ◌≡◌, ◌≤◌,
}
use rag_ingestion_service.Prelude.Filter.{filter}
use mathlib.Core.List.{map-append}
use rag_ingestion_service.Settings.{Settings}
use rag_ingestion_service.Storage.{RemoteObject, suffix}
use rag_ingestion_service.BucketImport.{
  Reason, Sorting, reject, normalize_extensions, content_hash_for, sort_object, select, no_suffix,
  empty_file, repeated_in_prefix, unsupported_suffix, too_large, too_many,
}

module _ (digest : Text → Text) (s : Settings) (bucket : Text) (suffixes : List Text) where
  -- The next state of the loop for an object that is taken.
  abbrev pub admit : Sorting → RemoteObject → Sorting
  admit w obj = record {
    accepted = w.accepted ++ obj ∷ [];
    rejected = w.rejected;
    seen = content_hash_for digest bucket obj ∷ w.seen;
  }

  -- The two ends of a round of the loop of `select`.
  pub data Verdict (w : Sorting) (obj : RemoteObject) (q : Sorting) : Type 0 where
    refused : (reason : Reason) → q ≡ reject w obj reason → Verdict w obj q
    admitted :
        contains suffixes (suffix obj) ≡ true
        → 0 < obj.size
        → obj.size ≤ s.bucket_import_max_file_size
        → length w.accepted < s.bucket_import_max_files
        → contains w.seen (content_hash_for digest bucket obj) ≡ false
        → q ≡ admit w obj
        → Verdict w obj q

  pub sort_object-Verdict :
      (w : Sorting) (obj : RemoteObject)
      → Verdict w obj (sort_object digest s bucket suffixes w obj)
  unfolding sort_object
  sort_object-Verdict w obj =
      let V = Verdict w obj in
      if_ind V (is_empty (suffix obj)) (λ _. refused no_suffix refl)
        λ _.
          if_ind V (not (contains suffixes (suffix obj)))
            (λ _. refused (unsupported_suffix (suffix obj)) refl)
            λ known.
              if_ind V (obj.size == 0) (λ _. refused empty_file refl)
                λ filled.
                  if_ind V (ltb s.bucket_import_max_file_size obj.size)
                    (λ _. refused (too_large s.bucket_import_max_file_size) refl)
                    λ fits.
                      if_ind V (leb s.bucket_import_max_files (length w.accepted))
                        (λ _. refused (too_many s.bucket_import_max_files) refl)
                        λ room.
                          if_ind V (contains w.seen (content_hash_for digest bucket obj))
                            (λ _. refused repeated_in_prefix refl)
                            λ fresh.
                              admitted (ground arith) (ground arith) (ground arith) (ground arith)
                                fresh refl

  abbrev hashes : List RemoteObject → List Text
  hashes = map (content_hash_for digest bucket)

  -- What an object meets to be taken: an extension that is asked for, and a size within bounds.
  pub record IsWanted (obj : RemoteObject) : Type 0 where
    pub asked : contains suffixes (suffix obj) ≡ true
    pub filled : 0 < obj.size
    pub fits : obj.size ≤ s.bucket_import_max_file_size

  record IsSorting (w : Sorting) : Type 0 where
    wanted : All IsWanted w.accepted
    few : length w.accepted ≤ s.bucket_import_max_files
    distinct : Distinct (hashes w.accepted)
    tracked : (t : Text) → contains w.seen t ≡ contains (hashes w.accepted) t

  Verdict-IsSorting :
      (w : Sorting) (obj : RemoteObject) (q : Sorting) → Verdict w obj q → IsSorting w → IsSorting q
  unfolding reject
  Verdict-IsSorting w obj q (refused reason e) h =
      rw e (record { wanted = h.wanted; few = h.few; distinct = h.distinct; tracked = h.tracked })
  Verdict-IsSorting w obj q (admitted asked filled fits room fresh e) h =
      let hash = content_hash_for digest bucket obj in
      rw e (record {
        wanted =
            All-append IsWanted w.accepted _ h.wanted
              (record { asked = asked; filled = filled; fits = fits }, tt);
        few = omega (arith, length-append w.accepted (obj ∷ []));
        distinct =
            rw map-append
              (Distinct-snoc (hashes w.accepted) hash h.distinct (ground (arith, h.tracked hash)));
        tracked = λ t.
            rw map-append
              (ground (arith, h.tracked t, contains-append (hashes w.accepted) (hash ∷ []) t));
      })

  sorted :
      (objects : List RemoteObject)
      → IsSorting (
          foldl
            (sort_object digest s bucket suffixes)
            (record { accepted = []; rejected = []; seen = [] })
            objects)
  sorted objects =
      foldl_inv IsSorting (sort_object digest s bucket suffixes)
        (λ w obj. Verdict-IsSorting w obj _ (sort_object-Verdict w obj)) _ objects
        (record { wanted = tt; few = omega arith; distinct = tt; tracked = λ t. refl })

contains-filter :
    (p : Text → Bool) (xs : List Text) (t : Text)
    → contains (filter p xs) t ≡ true
    → contains xs t ≡ true
unfolding filter
contains-filter p [] t h = h
contains-filter p (x ∷ xs) t h = ground (arith, contains-filter p xs t)

-- Whatever is asked for, no suffix passes that the service does not allow.
normalize_extensions-allowed :
    (s : Settings) (extensions : List Text) (t : Text)
    → contains (normalize_extensions s extensions) t ≡ true
    → contains s.allowed_suffixes t ≡ true
unfolding normalize_extensions
normalize_extensions-allowed s [] t h = h
normalize_extensions-allowed s (ext ∷ extensions) t h = contains-filter _ s.allowed_suffixes t h

module _ (digest : Text → Text) (s : Settings) (bucket : Text) where
  -- Every object that `select` accepts has one of the extensions that the settings allow, one that
  -- `normalize_extensions` keeps of those asked for, is not empty and not too large; there are no
  -- more of them than one import may take, and no two have the same deduplication key.
  pub select-accepted :
      (objects : List RemoteObject) (extensions : List Text)
      → let taken = (select digest s bucket objects extensions).accepted in
        All (λ obj. contains s.allowed_suffixes (suffix obj) ≡ true) taken
        × All (IsWanted digest s bucket (normalize_extensions s extensions)) taken
        × (length taken ≤ s.bucket_import_max_files)
        × Distinct (map (content_hash_for digest bucket) taken)
  unfolding select
  select-accepted objects extensions =
      let h = sorted digest s bucket (normalize_extensions s extensions) objects in
      (
        All-imp _ _ _ (λ obj k. normalize_extensions-allowed s extensions (suffix obj) k.asked)
            h.wanted,
        h.wanted,
        h.few,
        h.distinct,
      )
