-- ===== src/Archive/Fit.antt =====
-- app/archive.py: the names that the plan gives to its entries are safe, and end in an allowed
-- suffix.
use rag_ingestion_service.Archive.{
  start, place, ZipInfo, Progress, ArchiveEntry, free_name, place_all, skip, unique_name,
  numbered_name,
}
use rag_ingestion_service.Archive.Names.{safe_name-IsSafe, IsSafe}
use rag_ingestion_service.Archive.Entries.{place-Outcome, taken, passed, Outcome}
use rag_ingestion_service.Prelude.{
  All, All-append, Bool-cases, List, Text, [], ap, arith, contains, contains-append, foldl_inv, inl,
  inr, length, lower, lower_char, nat_eq, option_eq, refl, slash, suc, sym, text_eq, true, zero, ℕ,
  ◌++◌, ◌+◌, ◌==◌, ◌∙◌, ◌∷◌, ◌≡◌, ◌≤◌,
}
use rag_ingestion_service.Prelude.Decimal.{decimal-LacksSlash, decimal}
use rag_ingestion_service.Settings.{Settings}
use rag_ingestion_service.Prelude.Paths.{
  path_stem-append-path_suffix, path_suffix, path_stem, split_one, path_name,
}
use mathlib.Core.List.{map-append, append_assoc}

lower_char-slash : (c : ℕ) → (lower_char c == slash) ≡ (c == slash)
unfolding lower_char
lower_char-slash c = ground arith

lower_char_idem : (c : ℕ) → lower_char (lower_char c) ≡ lower_char c
unfolding lower_char
lower_char_idem c = ground arith

pub lower_idem : (t : Text) → lower (lower t) ≡ lower t
unfolding lower
lower_idem [] = refl
lower_idem (c ∷ t) = cc (lower_char_idem c, lower_idem t)

contains-lower : (t : Text) → contains (lower t) slash ≡ contains t slash
unfolding lower
contains-lower [] = refl
contains-lower (c ∷ t) = ground (arith, lower_char-slash c, contains-lower t)

lower-append : (s t : Text) → lower (s ++ t) ≡ lower s ++ lower t
unfolding lower
lower-append s t = map-append lower_char s t

-- A safe name is its own last component.
path_name_of_safe : (name : Text) → IsSafe name → path_name name ≡ name
unfolding path_name
path_name_of_safe name v = rw (split_one name v.one_component) (ground arith)

safe_parts : (name : Text) → IsSafe name → path_stem name ++ path_suffix name ≡ name
safe_parts name v = path_stem-append-path_suffix name ∙ path_name_of_safe name v

module _ (name : Text) (v : IsSafe name) (k : ℕ) where
  abbrev numbered : Text
  numbered = numbered_name name (lower (path_suffix name)) k

  abbrev numbered_rest : Text
  numbered_rest = b'_' ∷ decimal k ++ lower (path_suffix name)

  has_underscore : contains numbered b'_' ≡ true
  unfolding numbered_name
  has_underscore = ground (arith, contains-append (path_stem name) numbered_rest b'_')

  numbered-IsSafe : IsSafe numbered
  unfolding numbered_name
  numbered-IsSafe = record {
    one_component = ground (
      arith,
      contains-append (path_stem name) numbered_rest slash,
      contains-append (decimal k) (lower (path_suffix name)) slash,
      decimal-LacksSlash k,
      contains-lower (path_suffix name),
      contains-append (path_stem name) (path_suffix name) slash,
      safe_parts name v,
      v.one_component,
    );
    ne_empty = λ e. ground (arith, has_underscore, e);
    ne_dot = λ e. ground (arith, has_underscore, e);
    ne_dot_dot = λ e. ground (arith, has_underscore, e);
  }

  lower-numbered : (front : Text) × (lower numbered ≡ front ++ lower (path_suffix name))
  unfolding numbered_name
  lower-numbered =
      (lower (path_stem name ++ (b'_' ∷ decimal k)), simp (lower-append, lower_idem, append_assoc))

module _ (s : Settings) where
  -- What the later stages rely on: a name that is one path component, with an allowed suffix in
  -- any case of letters, and a size within the limit for one file.
  pub record IsFit (e : ArchiveEntry) : Type 0 where
    pub safe : IsSafe e.name
    pub suffixed :
        (front suffix : Text) × (lower e.name ≡ front ++ suffix)
        × (contains s.allowed_suffixes suffix ≡ true)
    pub fits : e.size ≤ s.archive_max_file_size

  -- Where the loop for a free name ends: at the name itself or at a numbered one.
  free_name-IsFit :
      (name : Text) (v : IsSafe name) (seen : List Text) (fuel counter : ℕ) (unique : Text)
      → IsSafe unique × ((front : Text) × (lower unique ≡ front ++ lower (path_suffix name)))
      → IsSafe (free_name name (lower (path_suffix name)) seen fuel counter unique)
        × ((front : Text) × (lower
                (free_name name (lower (path_suffix name)) seen fuel counter unique)
              ≡ front ++ lower (path_suffix name)))
  unfolding free_name
  free_name-IsFit name v seen zero counter unique h = h
  free_name-IsFit name v seen (suc fuel) counter unique h =
      elim (Bool-cases (contains seen unique)) [
        | inl used ↦ rw used (
            free_name-IsFit name v seen fuel (counter + 1) _
              (numbered-IsSafe name v counter, lower-numbered name v counter))
        | inr free ↦ rw free h
      ]

  unique_name-IsFit :
      (name : Text) (v : IsSafe name) (seen : List Text)
      → IsSafe (unique_name name (lower (path_suffix name)) seen)
        × ((front : Text) × (lower (unique_name name (lower (path_suffix name)) seen)
              ≡ front ++ lower (path_suffix name)))
  unfolding unique_name
  unique_name-IsFit name v seen =
      free_name-IsFit name v seen (length seen + 2) 1 name
        (v, (lower (path_stem name), sym (ap lower (safe_parts name v)) ∙ lower-append _ _))

  Outcome-IsFit :
      (p : Progress) (info : ZipInfo) (q : Progress)
      → Outcome s p info q
      → All IsFit p.entries
      → All IsFit q.entries
  unfolding skip
  Outcome-IsFit p info q (passed name reason e) h = rw e h
  Outcome-IsFit p info q (taken name safe allowed fits e) h =
      let (v, (front, ends)) =
        unique_name-IsFit name (safe_name-IsSafe info.filename name safe) p.seen in
      rw e (
        All-append IsFit p.entries _ h (
          record {
            safe = v;
            suffixed = (front, lower (path_suffix name), ends, allowed);
            fits = fits;
          },
          tt,
        ))

  -- Every entry of the plan has a safe name with an allowed suffix, and is not too large.
  pub place_all-IsFit : (infos : List ZipInfo) → All IsFit (place_all s infos).entries
  unfolding place_all
  place_all-IsFit infos =
      foldl_inv (λ p. All IsFit p.entries) (place s)
        (λ p info h. Outcome-IsFit p info _ (place-Outcome s p info) h) (start s) infos tt
