-- ===== src/Archive/Entries.antt =====
-- app/archive.py: what the loop over the entries of an accepted archive leaves in the plan.
use mathlib.Core.List.{map-append}
use rag_ingestion_service.Prelude.{
  suc, ◌+◌, ◌≤◌, ◌≡◌, refl, inl, inr, true, List, [], ◌∷◌, ◌++◌, map, foldl, arith, Text, length,
  length-append, foldl_inv, ltb, contains, contains-append, nat_eq, text_eq, Distinct,
  Distinct-snoc, lower, Bool-cases,
}
use rag_ingestion_service.Prelude.Filter.{sum_of, sum_of-append}
use rag_ingestion_service.Prelude.Paths.{path_suffix}
use rag_ingestion_service.Prelude.Result.{ok, Result-cases}
use rag_ingestion_service.Settings.{Settings}
use rag_ingestion_service.Archive.{
  ZipInfo, SkipReason, rejected_name, nested_archive, unsupported_suffix, file_too_large,
  nested_archive_suffixes, skip, ArchiveEntry, Progress, start, safe_name, unique_name, place_named,
  place, place_all,
}
use rag_ingestion_service.Archive.Names.{unique_name_fresh}

abbrev names : List ArchiveEntry → List Text
names = map (λ e. e.name)

-- The names taken so far are those of the entries, and none stands there twice.
record IsApart (p : Progress) : Type 0 where
  distinct : Distinct (names p.entries)
  tracked : (t : Text) → contains p.seen t ≡ contains (names p.entries) t

-- The next state for an entry that is taken.
abbrev pub take_as : Progress → ZipInfo → Text → Progress
take_as p info unique = record {
  entries =
      p.entries ++ record { name = unique; size = info.file_size; raw_name = info.filename } ∷ [];
  skipped = p.skipped;
  seen = unique ∷ p.seen;
}

-- The two ends of a round of the loop.
pub data Outcome (s : Settings) (p : Progress) (info : ZipInfo) (q : Progress) : Type 0 where
  passed : (name : Text) (reason : SkipReason) → q ≡ skip p name reason → Outcome s p info q
  taken :
      (name : Text)
      → safe_name info.filename ≡ ok name
      → contains s.allowed_suffixes (lower (path_suffix name)) ≡ true
      → info.file_size ≤ s.archive_max_file_size
      → q ≡ take_as p info (unique_name name (lower (path_suffix name)) p.seen)
      → Outcome s p info q

module _ (s : Settings) where
  place_named-Outcome :
      (p : Progress) (info : ZipInfo) (name : Text)
      → safe_name info.filename ≡ ok name
      → Outcome s p info (place_named s p info name)
  unfolding place_named
  place_named-Outcome p info name e =
      let suffix = lower (path_suffix name) in
      elim (Bool-cases (contains nested_archive_suffixes suffix)) [
        | inl nested ↦ passed name nested_archive (rw nested)
        | inr plain ↦ elim (Bool-cases (contains s.allowed_suffixes suffix)) [
          | inr other ↦ passed name (unsupported_suffix suffix) (rw (plain, other))
          | inl allowed ↦ elim (Bool-cases (ltb s.archive_max_file_size info.file_size)) [
            | inl large ↦ passed name file_too_large (rw (plain, allowed, large))
            | inr fits ↦ taken name e allowed (ground arith) (rw (plain, allowed, fits))
          ]
        ]
      ]

  pub place-Outcome : (p : Progress) (info : ZipInfo) → Outcome s p info (place s p info)
  unfolding place
  place-Outcome p info = elim (Result-cases (safe_name info.filename)) [
    | inl (name, e) ↦ rw (e, place) (place_named-Outcome p info name e)
    | inr (why, e) ↦ rw (e, place) (passed info.filename (rejected_name why) refl)
  ]

  Outcome-IsApart :
      (p : Progress) (info : ZipInfo) (q : Progress) → Outcome s p info q → IsApart p → IsApart q
  unfolding skip
  Outcome-IsApart p info q (passed name reason e) h =
      rw e (record { distinct = h.distinct; tracked = h.tracked })
  Outcome-IsApart p info q (taken name safe allowed fits e) h =
      let unique = unique_name name (lower (path_suffix name)) p.seen in
      rw e (record {
        distinct = rw map-append (
            Distinct-snoc (names p.entries) unique h.distinct (
              ground (
                arith,
                h.tracked unique,
                unique_name_fresh name (lower (path_suffix name)) p.seen,
              )));
        tracked = λ t.
            rw map-append
              (ground (arith, h.tracked t, contains-append (names p.entries) (unique ∷ []) t));
      })

  place-IsApart : (p : Progress) (info : ZipInfo) → IsApart p → IsApart (place s p info)
  place-IsApart p info = Outcome-IsApart p info _ (place-Outcome p info)

  Outcome-count :
      (p : Progress) (info : ZipInfo) (q : Progress)
      → Outcome s p info q
      → length q.entries + length q.skipped ≡ suc (length p.entries + length p.skipped)
  unfolding skip
  Outcome-count p info q (passed name reason e) =
      rw e (omega (arith, length-append p.skipped ((name, reason) ∷ [])))
  Outcome-count p info q (taken name safe allowed fits e) =
      rw e (omega (arith, length-append {0} p.entries))

  Outcome-size :
      (p : Progress) (info : ZipInfo) (q : Progress)
      → Outcome s p info q
      → sum_of (λ e. e.size) q.entries ≤ sum_of (λ e. e.size) p.entries + info.file_size
  unfolding skip
  Outcome-size p info q (passed name reason e) = rw e (omega arith)
  Outcome-size p info q (taken name safe allowed fits e) =
      rw (e, sum_of-append) (unfold sum_of in omega arith)

  loop_count :
      (p : Progress) (infos : List ZipInfo)
      → length (foldl (place s) p infos).entries + length (foldl (place s) p infos).skipped
        ≡ length infos + (length p.entries + length p.skipped)
  loop_count p [] = omega arith
  loop_count p (info ∷ infos) = omega (
    arith,
    loop_count (place s p info) infos,
    Outcome-count p info (place s p info) (place-Outcome p info),
  )

  loop_size :
      (p : Progress) (infos : List ZipInfo)
      → sum_of (λ e. e.size) (foldl (place s) p infos).entries
        ≤ sum_of (λ i. i.file_size) infos + sum_of (λ e. e.size) p.entries
  unfolding sum_of
  loop_size p [] = omega arith
  loop_size p (info ∷ infos) = omega (
    arith,
    loop_size (place s p info) infos,
    Outcome-size p info (place s p info) (place-Outcome p info),
  )

  -- The loop gives no two entries the same name.
  pub place_all-Distinct :
      (infos : List ZipInfo) → Distinct (map (λ e. e.name) (place_all s infos).entries)
  unfolding place_all
  place_all-Distinct infos =
      (foldl_inv IsApart (place s) place-IsApart (start s) infos
        (record { distinct = tt; tracked = λ t. refl })).distinct

  -- Every file of the archive is either an entry of the plan or listed as skipped, once.
  pub length-place_all :
      (infos : List ZipInfo)
      → length (place_all s infos).entries + length (place_all s infos).skipped ≡ length infos
  unfolding place_all
  length-place_all infos = omega (arith, loop_count (start s) infos)

  -- The entries declare no more bytes than the files of the archive together.
  pub size-place_all :
      (infos : List ZipInfo)
      → sum_of (λ e. e.size) (place_all s infos).entries ≤ sum_of (λ i. i.file_size) infos
  unfolding place_all sum_of
  size-place_all infos = omega (arith, loop_size (start s) infos)
