-- ===== src/Jobs/Backed.antt =====
-- app/tasks/jobs.py: the loop of `_expand_archive` and the documents that wait for the worker.
use rag_ingestion_service.Models.{is_none, from_archive}
use rag_ingestion_service.Prelude.{List, Text, [], nat_eq, not, option_eq, text_eq, ℕ, ◌∷◌}
use rag_ingestion_service.Archive.{ArchiveEntry}
use rag_ingestion_service.Exec.{lift, >>=-Keeps}
use rag_ingestion_service.World.{World}
use rag_ingestion_service.Jobs.{Worker, register_document}
use rag_ingestion_service.Jobs.Archives.{register_entries, tally}
use rag_ingestion_service.Jobs.Register.{HasRows, register_document-Keeps}

module _ {S I : Type 0} (env : Worker S I) where
  -- Registering the entries of an archive one after the other keeps every waiting document backed
  -- by its row, also when an entry cannot be read or registered and the rest is left out.
  pub register_entries-Keeps :
      (rag_id batch_id : ℕ) (raw : Text) (items : List ArchiveEntry) (created skipped : ℕ)
      (w : World S I)
      → HasRows w
      → HasRows (register_entries env rag_id batch_id raw items created skipped w).1
  unfolding register_entries
  register_entries-Keeps rag_id batch_id raw [] created skipped w h = h
  register_entries-Keeps rag_id batch_id raw (item ∷ items) created skipped w h =
      >>=-Keeps HasRows (lift (env.read_entry raw item.raw_name)) _ (λ s p. p)
        (λ payload.
          >>=-Keeps HasRows (register_document env rag_id item.name payload from_archive batch_id)
            (λ document_id.
              register_entries env rag_id batch_id raw items
                (tally created (not (is_none document_id))) (tally skipped (is_none document_id)))
            (register_document-Keeps env rag_id item.name payload from_archive batch_id)
            (λ document_id. register_entries-Keeps rag_id batch_id raw items _ _))
        w h
