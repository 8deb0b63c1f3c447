-- ===== src/Archive/Limits.antt =====
-- app/archive.py: the checks by which `plan` rejects an archive as a whole.
use rag_ingestion_service.Prelude.{
  inr, inl, ◌⊎◌, ◌*◌, ◌≤◌, ◌≡◌, refl, ◌↔◌, Bool, false, not, ◌&&◌, none, List, [], ◌∷◌, arith, All,
  length, is_empty, nat_eq,
}
use rag_ingestion_service.Prelude.Filter.{any, sum_of}
use rag_ingestion_service.Prelude.Result.{ok}
use rag_ingestion_service.Settings.{Settings}
use rag_ingestion_service.Archive.{ZipInfo, check_ratio, files, is_encrypted, place_all, plan}

module _ (s : Settings) where
  -- The entry is packed into no bytes, or its ratio is within the limit.
  abbrev pub IsLoose : ZipInfo → Type 0
  IsLoose info =
      (info.compress_size ≡ 0) ⊎ (info.file_size ≤ s.archive_max_ratio * info.compress_size)

  -- What an archive must meet: no entry is encrypted, and its files are within the limits on
  -- their number, their size together, and the ratio at which each is packed.
  pub record IsWithinLimits (infolist : List ZipInfo) : Type 0 where
    pub readable : any is_encrypted infolist ≡ false
    pub few : length (files infolist) ≤ s.archive_max_entries
    pub small : sum_of (λ info. info.file_size) (files infolist) ≤ s.archive_max_uncompressed
    pub loose : All IsLoose (files infolist)

  check_ratio-IsLoose : (infos : List ZipInfo) → check_ratio s infos ≡ none → All IsLoose infos
  unfolding check_ratio
  check_ratio-IsLoose [] h = tt
  check_ratio-IsLoose (info ∷ infos) h = (
    elim (nat_eq.dec info.compress_size 0) [ yes e ↦ inl e | no ne ↦ inr (ground arith) ],
    check_ratio-IsLoose infos (ground arith),
  )

  IsLoose-check_ratio : (infos : List ZipInfo) → All IsLoose infos → check_ratio s infos ≡ none
  unfolding check_ratio
  IsLoose-check_ratio [] h = refl
  IsLoose-check_ratio (info ∷ infos) (inl e, h) = ground (arith, IsLoose-check_ratio infos h)
  IsLoose-check_ratio (info ∷ infos) (inr fits, h) = ground (arith, IsLoose-check_ratio infos h)

  check_ratio_iff : (infos : List ZipInfo) → (check_ratio s infos ≡ none) ↔ All IsLoose infos
  check_ratio_iff infos = (check_ratio-IsLoose infos, IsLoose-check_ratio infos)

  guard_any : (p : ZipInfo → Bool) (l : List ZipInfo) → (not (is_empty l) && any p l) ≡ any p l
  unfolding any
  guard_any p [] = refl
  guard_any p (x ∷ xs) = refl

  -- A zip is taken, with the plan of the loop over its files, exactly when no entry is encrypted
  -- and its files are within the limits on their number, their size together, and the ratio at
  -- which each is packed.
  pub plan-ok_iff :
      (infolist : List ZipInfo)
      → (plan s infolist ≡ ok (place_all s (files infolist))) ↔ IsWithinLimits infolist
  unfolding plan
  plan-ok_iff infolist = (
    λ h. record {
      readable = ground (arith, guard_any is_encrypted infolist);
      few = ground arith;
      small = ground arith;
      loose = check_ratio-IsLoose (files infolist) (ground arith);
    },
    λ v.
        ground
          (arith, guard_any is_encrypted infolist, IsLoose-check_ratio (files infolist) v.loose),
  )
