-- ===== src/Jobs/Counts.antt =====
-- app/tasks/jobs.py: the counters of `_expand_archive`.
use mathlib.Core.Path.{subst}
use rag_ingestion_service.Prelude.{
  Bool, List, Text, [], arith, false, length, nat_eq, not, option_eq, suc, sym, text_eq, true, ℕ,
  ◌+◌, ◌∷◌, ◌≡◌,
}
use rag_ingestion_service.Prelude.Result.{Result, ok, err}
use rag_ingestion_service.Archive.{ArchiveEntry}
use rag_ingestion_service.Errors.{Exception}
use rag_ingestion_service.Exec.{lift, >>=_ind}
use rag_ingestion_service.Models.{from_archive, is_none}
use rag_ingestion_service.World.{World}
use rag_ingestion_service.Jobs.{Worker, register_document}
use rag_ingestion_service.Jobs.Archives.{register_entries, tally}

-- The counters of a loop that ended without an exception add up to the given number.
abbrev Counted : ℕ → Result Exception (ℕ × ℕ) → Type 0
Counted n (ok (created, skipped)) = created + skipped ≡ n
Counted n (err e) = Unit {0}

tally_lem :
    (created skipped n : ℕ) (missing : Bool)
    → tally created (not missing) + tally skipped missing + n ≡ created + skipped + suc n
tally_lem created skipped n true = omega arith
tally_lem created skipped n false = omega arith

module _ {S I : Type 0} (env : Worker S I) where
  register_entries-Counted :
      (rag_id batch_id : ℕ) (raw : Text) (items : List ArchiveEntry) (created skipped : ℕ)
      (w : World S I)
      → Counted
          (created + skipped + length items)
          (register_entries env rag_id batch_id raw items created skipped w).0
  unfolding register_entries
  register_entries-Counted rag_id batch_id raw [] created skipped w = omega arith
  register_entries-Counted rag_id batch_id raw (item ∷ items) created skipped w =
      let n = created + skipped + suc (length items) in
      >>=_ind (λ r _. Counted n r) (lift (env.read_entry raw item.raw_name)) _ w (λ e s. tt)
        (λ payload s.
          >>=_ind (λ r _. Counted n r)
            (register_document env rag_id item.name payload from_archive batch_id)
            (λ document_id.
              register_entries env rag_id batch_id raw items
                (tally created (not (is_none document_id))) (tally skipped (is_none document_id)))
            s (λ e s'. tt)
            (λ document_id s'.
              rw (sym (tally_lem created skipped (length items) (is_none document_id)))
                (register_entries-Counted rag_id batch_id raw items _ _ s')))

  -- Where the loop over the entries ends without an exception, every entry is counted once, as
  -- created or as skipped, on top of the counters that it started with.
  pub register_entries_lem :
      (rag_id batch_id : ℕ) (raw : Text) (items : List ArchiveEntry) (created skipped c k : ℕ)
      (w w' : World S I)
      → register_entries env rag_id batch_id raw items created skipped w ≡ (ok (c, k), w')
      → c + k ≡ created + skipped + length items
  register_entries_lem rag_id batch_id raw items created skipped c k w w' e =
      subst
        (λ (x : Result Exception (ℕ × ℕ) × World S I).
          Counted (created + skipped + length items) x.0)
        e (register_entries-Counted rag_id batch_id raw items created skipped w)
