-- ===== src/Archive.antt =====
-- app/archive.py: which entries of a user's zip are taken, and under which names. The
-- central directory that `zipfile` reads is the argument: a list of `ZipInfo`.
pub mod Names
pub mod Limits
pub mod Entries
pub mod Fit
mod Samples
use rag_ingestion_service.Prelude.{
  ℕ, zero, suc, ◌+◌, ◌*◌, ◌%◌, ◌≤◌, Bool, true, false, ◌&&◌, ◌||◌, not, Option, none, some, List,
  [], ◌∷◌, ◌++◌, foldl, Text, codes, slash, ltb, leb, if◌then◌else◌, length, ◌==◌, contains, nat_eq,
  text_eq, lower, is_empty, ends_with,
}
use rag_ingestion_service.Prelude.Decimal.{decimal}
use rag_ingestion_service.Prelude.Filter.{filter, any, sum_of}
use rag_ingestion_service.Prelude.Paths.{normpath, path_name, path_stem, path_suffix}
use rag_ingestion_service.Prelude.Result.{Result, ok, err}
use rag_ingestion_service.Settings.{Settings}

-- What the code reads of `zipfile.ZipInfo`.
pub record ZipInfo : Type 0 where
  pub filename : Text
  pub flag_bits : ℕ
  pub file_size : ℕ
  pub compress_size : ℕ

-- `ZipInfo.is_dir`
unfoldable pub is_dir : ZipInfo → Bool
unfolding ends_with
is_dir info = ends_with info.filename (slash ∷ [])

-- The exception `ArchiveRejected`, one constructor for each message.
pub data ArchiveRejected : Type 0 where
  bad_name : Text → ArchiveRejected
  encrypted : ArchiveRejected
  too_many_entries : ℕ → ArchiveRejected
  too_large : ℕ → ArchiveRejected
  zip_bomb : Text → ArchiveRejected

pub record ArchiveEntry : Type 0 where
  pub name : Text
  pub size : ℕ
  pub raw_name : Text

-- The reasons for which one entry is passed over.
pub data SkipReason : Type 0 where
  rejected_name : ArchiveRejected → SkipReason
  nested_archive : SkipReason
  unsupported_suffix : Text → SkipReason
  file_too_large : SkipReason

pub record ArchivePlan : Type 0 where
  pub entries : List ArchiveEntry
  pub skipped : List (Text × SkipReason)

abbrev pub nested_archive_suffixes : List Text
nested_archive_suffixes =
    codes ".zip"
    ∷ codes ".tar"
    ∷ codes ".gz"
    ∷ codes ".tgz"
    ∷ codes ".bz2"
    ∷ codes ".xz"
    ∷ codes ".7z"
    ∷ codes ".rar"
    ∷ []

abbrev forward_slash : ℕ → ℕ
forward_slash c = if c == b'\\' then slash else c

-- `raw.replace("\\", "/")`
forward_slashes : Text → Text
forward_slashes [] = []
forward_slashes (c ∷ s) = forward_slash c ∷ forward_slashes s

pub safe_name : Text → Result ArchiveRejected Text
unfolding forward_slashes
safe_name raw =
    let name = path_name (normpath (forward_slashes raw)) in
    if name == [] || name == codes "." || name == codes ".." then err (bad_name raw) else ok name

-- `f"{stem}_{counter}{suffix}"`
pub numbered_name : Text → Text → ℕ → Text
numbered_name name suffix counter = path_stem name ++ (b'_' ∷ decimal counter ++ suffix)

-- `while unique in seen`, on fuel.
pub free_name : Text → Text → List Text → ℕ → ℕ → Text → Text
free_name name suffix seen zero counter unique = unique
free_name name suffix seen (suc fuel) counter unique =
    let next = free_name name suffix seen fuel (counter + 1) (numbered_name name suffix counter) in
    if contains seen unique then next else unique

-- Two rounds more than there are names to collide with.
pub unique_name : Text → Text → List Text → Text
unfolding free_name
unique_name name suffix seen = free_name name suffix seen (length seen + 2) 1 name

-- The variables of the loop over the entries.
pub record Progress : Type 0 where
  pub entries : List ArchiveEntry
  pub skipped : List (Text × SkipReason)
  pub seen : List Text

pub skip : Progress → Text → SkipReason → Progress
skip p name reason = record p { skipped = p.skipped ++ (name, reason) ∷ [] }

-- `flag_bits & 0x1`
abbrev pub is_encrypted : ZipInfo → Bool
is_encrypted info = info.flag_bits % 2 == 1

-- `infos`: the entries that are no directories.
abbrev pub files : List ZipInfo → List ZipInfo
files = filter (λ info. not (is_dir info))

module _ (s : Settings) where
  -- The rest of the body for an entry whose name is safe.
  place_named : Progress → ZipInfo → Text → Progress
  unfolding skip
  place_named p info name =
      let suffix = lower (path_suffix name) in
      let unique = unique_name name suffix p.seen in
      if contains nested_archive_suffixes suffix
      then skip p name nested_archive
      else if not (contains s.allowed_suffixes suffix)
      then skip p name (unsupported_suffix suffix)
      else if ltb s.archive_max_file_size info.file_size
      then skip p name file_too_large
      else record {
        entries =
            p.entries
            ++ record { name = unique; size = info.file_size; raw_name = info.filename } ∷ [];
        skipped = p.skipped;
        seen = unique ∷ p.seen;
      }

  -- The body of the loop over the entries.
  pub place : Progress → ZipInfo → Progress
  unfolding skip place_named
  place p info = elim (safe_name info.filename) [
    | ok name ↦ place_named p info name
    | err e ↦ skip p info.filename (rejected_name e)
  ]

  -- The entry is packed more tightly than the ratio allows.
  is_bomb : ZipInfo → Bool
  is_bomb info =
      not (leb info.compress_size 0)
      && ltb (s.archive_max_ratio * info.compress_size) info.file_size

  -- The loop that raises at the first bomb.
  check_ratio : List ZipInfo → Option ArchiveRejected
  unfolding is_bomb
  check_ratio [] = none
  check_ratio (info ∷ infos) =
      let rest = check_ratio infos in if is_bomb info then some (zip_bomb info.filename) else rest

  abbrev pub start : Progress
  start = record { entries = []; skipped = []; seen = [] }

  -- The loop over the entries, when the archive as a whole is accepted.
  pub place_all : List ZipInfo → ArchivePlan
  place_all infos =
      let p = foldl place start infos in record { entries = p.entries; skipped = p.skipped }

  unfoldable pub plan : List ZipInfo → Result ArchiveRejected ArchivePlan
  unfolding check_ratio place_all
  plan infolist =
      let infos = files infolist in
      let total_uncompressed = sum_of (λ info. info.file_size) infos in
      if not (is_empty infolist) && any is_encrypted infolist
      then err encrypted
      else if ltb s.archive_max_entries (length infos)
      then err (too_many_entries (length infos))
      else if ltb s.archive_max_uncompressed total_uncompressed
      then err (too_large total_uncompressed)
      else elim (check_ratio infos) [ none ↦ ok (place_all infos) | some e ↦ err e ]
