-- ===== src/Steps/Limits.antt =====
-- app/api/rags.py: the quota of sets where creations interleave. `create_rag` and `create_from_bucket`
-- count the sets of the owner and insert the new one later, over awaits and without a lock, so each is
-- cut into steps here, and other requests and jobs run in between.
use rag_ingestion_service.Api.Remote.{register_remote}
use rag_ingestion_service.Exec.{Exec, pure, continue}
use rag_ingestion_service.Storage.{RemoteObject}
use rag_ingestion_service.Models.{insert_rag, empty_db}
use rag_ingestion_service.Api.Sets.{renamed, new_rag, RagCreate, add_rag, has_room}
use rag_ingestion_service.Steps.Invariant.{step-keeps, empty-IsConsistent}
use rag_ingestion_service.Steps.Remote.{register_remote-Keeps, add_documents_from_bucket-Keeps}
use rag_ingestion_service.World.{transaction_ind, World, Task}
use rag_ingestion_service.Models.Consistency.{IsConsistent-IsStable}
use rag_ingestion_service.Steps.Sets.{add_rag-Keeps}
use rag_ingestion_service.Steps.Quota.{
  raised, IsWithin, IsWithin-KeepsRows, IsWithin-KeepsRemovals, insert_rag-IsWithin,
  update_rag_row-IsWithin,
}
use rag_ingestion_service.Prelude.{
  false, true, ◌≤◌, Bool, ◌+◌, ◌≡◌, refl, if_ind, leb, List, Option, Text, arith, nat_eq, option_eq,
  text_eq, ℕ,
}
use rag_ingestion_service.Prelude.Result.{ok}
use rag_ingestion_service.Prelude.Filter.{count, filter}
use rag_ingestion_service.Models.Integrity.{IsConsistent}
use rag_ingestion_service.Repo.{count_rags}
use rag_ingestion_service.World
use rag_ingestion_service.Jobs.{Worker}
use rag_ingestion_service.Steps.{
  Request, post_rag, post_from_bucket, patch_rag, put_rag_icon, remove_rag, post_documents,
  post_documents_from_bucket, remove_one_document, post_archive, post_staging_import, handle,
  run_task, Step, request, ingest, maintain, elapse,
}
use rag_ingestion_service.Steps.Jobs.{ingest_document-Keeps, purge_document-Keeps}
use rag_ingestion_service.Steps.Imports.{expand_archive-Keeps, import_s3_prefix-Keeps}
use rag_ingestion_service.Steps.Handlers.{
  upload_documents-Keeps, remove_document-Keeps, import_archive-Keeps, import_from_staging-Keeps,
}
use rag_ingestion_service.Steps.Removal.{delete_rag-Keeps, purge_rag-Keeps}
use rag_ingestion_service.Steps.Edits.{update_rag-keeps, put_icon-keeps}

module _ {S I : Type 0} (env : Worker S I) (fold : Text → Text)
    (normalize : Text → Option Text) where
  abbrev limit : ℕ
  limit = env.settings.rag_max_sets_per_owner

  abbrev creates : Request → Bool
  creates (post_rag payload user_id) = true
  creates (post_from_bucket payload user_id) = true
  creates _ = false

  abbrev pub is_creation : {w w' : World S I} → Step env fold normalize w w' → Bool
  is_creation (request r w) = creates r
  is_creation (ingest document_id rest w e) = false
  is_creation (maintain task rest w e) = false
  is_creation (elapse later store index w) = false

  -- The states, with the number of creations of each owner that have counted and not yet inserted. One
  -- more is let through only where there are at most `others` of the same owner.
  pub data Racing (others : ℕ) : World S I → (ℕ → ℕ) → Type 0 where
    begun : (w : World S I) → w.db ≡ empty_db → Racing others w (λ _. 0)
    admitted :
        {w : World S I} {pending : ℕ → ℕ} (user_id : ℕ)
        → has_room env fold user_id w ≡ (ok tt, w)
        → pending user_id ≤ others
        → Racing others w pending
        → Racing others w (raised user_id pending)
    -- the row of the set, or the 409 for a name that is taken
    inserted :
        {w : World S I} {pending : ℕ → ℕ} (payload : RagCreate) (user_id : ℕ)
        → Racing others w (raised user_id pending)
        → Racing others (add_rag env fold payload user_id w).1 pending
    -- the documents of a set that was created from a bucket
    registered :
        {w : World S I} {pending : ℕ → ℕ} (rag_id : ℕ) (bucket : Text) (objects : List RemoteObject)
        → Racing others w pending
        → Racing others (register_remote env rag_id bucket objects w).1 pending
    abandoned :
        {w : World S I} {pending : ℕ → ℕ} (user_id : ℕ)
        → Racing others w (raised user_id pending)
        → Racing others w pending
    other :
        {w w' : World S I} {pending : ℕ → ℕ} (step : Step env fold normalize w w')
        → is_creation step ≡ false
        → Racing others w pending
        → Racing others w' pending

  has_room-ltb :
      (user_id : ℕ) (w : World S I)
      → has_room env fold user_id w ≡ (ok tt, w)
      → leb limit (count_rags w.db user_id) ≡ false
  unfolding has_room
  has_room-ltb user_id w =
      if_ind
        (λ (m : Exec (World S I) (Unit {0})).
          m w ≡ (ok tt, w) → leb limit (count_rags w.db user_id) ≡ false)
        (leb limit (count_rags w.db user_id)) (λ full e. absurd (cc)) (λ room e. room)

  module _ (pending : ℕ → ℕ) (bound : ℕ) where
    add_rag-IsWithin :
        (payload : RagCreate) (user_id : ℕ) (w : World S I)
        → IsWithin (raised user_id pending) bound w.db
        → IsWithin pending bound (add_rag env fold payload user_id w).1.db
    unfolding add_rag
    add_rag-IsWithin payload user_id w h =
        let rag = new_rag w.now w.next_id user_id payload in
        transaction_ind
          (λ r (t : World S I).
            IsWithin pending bound (continue (renamed r) (λ _. pure rag) t).1.db)
          (λ (t : World S I). insert_rag fold rag t.db) (record w { next_id = w.next_id + 1 })
          (λ db e. insert_rag-IsWithin fold pending bound user_id rag w.db db refl refl e h)
          (λ e owner_id. ground (arith, h owner_id))

    handle-IsWithin :
        (r : Request) (w : World S I)
        → creates r ≡ false
        → IsConsistent w.db
        → IsWithin pending bound w.db
        → IsWithin pending bound (handle env fold normalize r w).db
    unfolding handle
    handle-IsWithin (post_rag payload user_id) w e tidy h = absurd (cc)
    handle-IsWithin (post_from_bucket payload user_id) w e tidy h = absurd (cc)
    handle-IsWithin (patch_rag rag_id payload user_id) w e tidy h =
        update_rag-keeps env fold user_id (λ db. IsConsistent db × IsWithin pending bound db)
          (IsWithin pending bound) (λ db (_, p). p)
          (update_rag_row-IsWithin fold pending bound user_id) rag_id payload w (tidy, h)
    handle-IsWithin (put_rag_icon rag_id file user_id) w e tidy h =
        put_icon-keeps env fold user_id (λ db. IsConsistent db × IsWithin pending bound db)
          (IsWithin pending bound) (λ db (_, p). p)
          (update_rag_row-IsWithin fold pending bound user_id) normalize rag_id file w (tidy, h)
    handle-IsWithin (remove_rag rag_id user_id) w e tidy h =
        delete_rag-Keeps env (IsWithin pending bound) (IsWithin-KeepsRows pending bound)
          (IsWithin-KeepsRemovals pending bound) rag_id user_id w h
    handle-IsWithin (post_documents rag_id files user_id) w e tidy h =
        upload_documents-Keeps env (IsWithin pending bound) (IsWithin-KeepsRows pending bound)
          rag_id files user_id w h
    handle-IsWithin (post_documents_from_bucket rag_id payload user_id) w e tidy h =
        add_documents_from_bucket-Keeps env (IsWithin pending bound)
          (IsWithin-KeepsRows pending bound) rag_id payload user_id w h
    handle-IsWithin (remove_one_document rag_id document_id user_id) w e tidy h =
        remove_document-Keeps env (IsWithin pending bound) (IsWithin-KeepsRows pending bound) rag_id
          document_id user_id w h
    handle-IsWithin (post_archive rag_id file user_id) w e tidy h =
        import_archive-Keeps env (IsWithin pending bound) (IsWithin-KeepsRows pending bound) rag_id
          file user_id w h
    handle-IsWithin (post_staging_import rag_id prefix) w e tidy h =
        import_from_staging-Keeps env (IsWithin pending bound) (IsWithin-KeepsRows pending bound)
          rag_id prefix w h

    run_task-IsWithin :
        (task : Task) (w : World S I)
        → IsWithin pending bound w.db
        → IsWithin pending bound (run_task env fold normalize task w).1.db
    unfolding run_task
    run_task-IsWithin (World.expand_archive batch_id staging_key) =
        expand_archive-Keeps env (IsWithin pending bound) (IsWithin-KeepsRows pending bound)
          batch_id staging_key
    run_task-IsWithin (World.import_s3_prefix batch_id prefix) =
        import_s3_prefix-Keeps env (IsWithin pending bound) (IsWithin-KeepsRows pending bound)
          batch_id prefix
    run_task-IsWithin (World.purge_rag rag_id) =
        purge_rag-Keeps env (IsWithin pending bound) (IsWithin-KeepsRows pending bound)
          (IsWithin-KeepsRemovals pending bound) rag_id
    run_task-IsWithin (World.purge_document rag_id document_id storage_key source_bucket) =
        purge_document-Keeps env (IsWithin pending bound) (IsWithin-KeepsRows pending bound)
          (env.render rag_id) (env.render document_id) storage_key source_bucket

    next-IsWithin :
        {w w' : World S I} (step : Step env fold normalize w w')
        → is_creation step ≡ false
        → IsConsistent w.db
        → IsWithin pending bound w.db
        → IsWithin pending bound w'.db
    next-IsWithin (request r w) e tidy h = handle-IsWithin r w e tidy h
    next-IsWithin (ingest document_id rest w queued) e tidy h =
        ingest_document-Keeps env (IsWithin pending bound) (IsWithin-KeepsRows pending bound)
          document_id (record w { ingest_queue = rest }) h
    next-IsWithin (maintain task rest w queued) e tidy h =
        run_task-IsWithin task (record w { maintenance_queue = rest }) h
    next-IsWithin (elapse later store index w) e tidy h = h

  empty-IsWithin : (others : ℕ) → IsWithin (λ _. 0) (limit + others) empty_db
  unfolding count_rags count filter
  empty-IsWithin others owner_id = omega arith

  admitted-IsWithin :
      (others user_id : ℕ) (pending : ℕ → ℕ) (w : World S I)
      → has_room env fold user_id w ≡ (ok tt, w)
      → pending user_id ≤ others
      → IsWithin pending (limit + others) w.db
      → IsWithin (raised user_id pending) (limit + others) w.db
  admitted-IsWithin others user_id pending w room few h owner_id =
      elim (nat_eq.dec owner_id user_id) [
        | yes same ↦ rw same (ground (arith, has_room-ltb user_id w room, few))
        | no differ ↦ ground (arith, h owner_id)
      ]

  Racing-Holds :
      (others : ℕ) {w : World S I} {pending : ℕ → ℕ}
      → Racing others w pending
      → IsConsistent w.db × IsWithin pending (limit + others) w.db
  Racing-Holds others (begun w e) =
      rw e (empty-IsConsistent env fold normalize, empty-IsWithin others)
  Racing-Holds others (admitted {w = w} {pending = pending} user_id room few before) =
      let (tidy, h) = Racing-Holds others before in
      (tidy, admitted-IsWithin others user_id pending w room few h)
  Racing-Holds others (inserted {w = w} {pending = pending} payload user_id before) =
      let (tidy, h) = Racing-Holds others before in
      (
        add_rag-Keeps env fold IsConsistent (IsConsistent-IsStable fold) payload user_id w tidy,
        add_rag-IsWithin pending (limit + others) payload user_id w h,
      )
  Racing-Holds others (registered {w = w} {pending = pending} rag_id bucket objects before) =
      let (tidy, h) = Racing-Holds others before in
      (
        register_remote-Keeps env IsConsistent (IsConsistent-IsStable fold).rows rag_id bucket
            objects w tidy,
        register_remote-Keeps env (IsWithin pending (limit + others))
            (IsWithin-KeepsRows pending (limit + others)) rag_id bucket objects w h,
      )
  Racing-Holds others (abandoned {w = w} {pending = pending} user_id before) =
      let (tidy, h) = Racing-Holds others before in (tidy, λ owner_id. ground (arith, h owner_id))
  Racing-Holds others (other {pending = pending} step e before) =
      let (tidy, h) = Racing-Holds others before in
      (
        step-keeps env fold normalize IsConsistent (IsConsistent-IsStable fold) step tidy,
        next-IsWithin pending (limit + others) step e tidy h,
      )

  -- Where at most `others` more creations of the same owner stand between the count of the sets and the
  -- insertion when one is let through, the sets of an owner and the creations that were let through are
  -- in every state at most the limit and `others` together, whatever requests and jobs of other kinds
  -- run in between, each as a whole: with none, no owner has more alive sets than the limit.
  pub Racing-IsWithin :
      (others : ℕ) {w : World S I} {pending : ℕ → ℕ}
      → Racing others w pending
      → (owner_id : ℕ) → count_rags w.db owner_id + pending owner_id ≤ limit + others
  Racing-IsWithin others race = (Racing-Holds others race).1
