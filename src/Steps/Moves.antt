-- ===== src/Steps/Moves.antt =====
-- app/api/rags.py and app/tasks/jobs.py: the service as a machine on what the owners can reach. A step
-- of the service is one move of this machine, on behalf of the one who takes the step.
use rag_ingestion_service.Prelude.{
  ◌≤◌, List, Option, Text, [], arith, nat_eq, none, option_eq, refl, some, sym, text_eq, ℕ, ◌==◌,
  ◌∷◌, ◌≡◌, ◌≢◌, ◌∙◌, ap, ◌++◌, slash,
}
use rag_ingestion_service.Prelude.Filter.{count}
use rag_ingestion_service.Models.{empty_db, RagSet, delete_rag_row}
use rag_ingestion_service.Repo.{get_rag}
use rag_ingestion_service.Repo.Isolation.{get_rag-owned}
use rag_ingestion_service.Repo.Views.{
  View, reach, view, put, erase, forget, reach-snoc, reach-filter, reach-any, reach-map,
  reach-deleted,
}
use rag_ingestion_service.World
use rag_ingestion_service.World.{World, Task}
use rag_ingestion_service.Jobs.{Worker, purge_rag}
use rag_ingestion_service.Search
use rag_ingestion_service.Storage.{delete, delete_prefix}
use rag_ingestion_service.Exec.{lift_ind}
use rag_ingestion_service.Models.Stable.{KeepsRows, sets-KeepsRows}
use mathlib.Core.Path.{fun_ext}
use rag_ingestion_service.Steps.{
  run_task, Step, request, ingest, maintain, elapse, Reachable, and_then,
}
use rag_ingestion_service.Steps.Jobs.{ingest_document-Keeps, purge_document-Keeps}
use rag_ingestion_service.Steps.Imports.{expand_archive-Keeps, import_s3_prefix-Keeps}
use rag_ingestion_service.Steps.Changes.{
  Actor, user, background, purging, caller, Change, same, added, replaced, deleted, handle-Change,
}
use rag_ingestion_service.Steps.Invariant.{reachable-IsConsistent}

-- The moves: nothing, a new set of a user under a key that nobody has, new values of a set that the
-- user has, its loss, and the purge of a key.
pub data Move (actor : Actor) (v v' : View) : Type 0 where
  keep : v' ≡ v → Move actor v v'
  add :
      (rag : RagSet)
      → actor ≡ user rag.owner_id
      → ((owner_id : ℕ) → v owner_id rag.id ≡ none)
      → v' ≡ put rag v
      → Move actor v v'
  change :
      (old rag : RagSet)
      → actor ≡ user rag.owner_id
      → v rag.owner_id rag.id ≡ some old
      → v' ≡ put rag v
      → Move actor v v'
  remove :
      (owner_id rag_id : ℕ) (old : RagSet)
      → actor ≡ user owner_id
      → v owner_id rag_id ≡ some old
      → v' ≡ erase owner_id rag_id v
      → Move actor v v'
  purge : (rag_id : ℕ) → actor ≡ purging rag_id → v' ≡ forget rag_id v → Move actor v v'

-- The lemmas on rows, as equations of views.
reach_ext :
    (v v' : View) → ((owner_id rag_id : ℕ) → v' owner_id rag_id ≡ v owner_id rag_id) → v' ≡ v
reach_ext v v' h = fun_ext (λ owner_id. fun_ext (h owner_id))

change-Move :
    (actor : Actor) (rows rows' : List RagSet)
    → ((k : ℕ) → count (λ r. r.id == k) rows ≤ 1)
    → Change actor rows rows'
    → Move actor (reach rows) (reach rows')
unfolding get_rag
change-Move actor rows rows' once (same e) = keep (ap reach e)
change-Move actor rows rows' once (added new mine alive unused e) =
    add new mine (λ owner_id. reach-any new.id owner_id rows unused)
      (ap reach e
        ∙ reach_ext _ _ (λ owner_id rag_id. reach-snoc new owner_id rag_id rows alive unused))
change-Move actor rows rows' once (replaced user_id k rag new mine found like e) =
    let (key, owner, alive) =
      get_rag-owned (record empty_db { rag_sets = rows }) k user_id rag found in
    let new_key : k ≡ new.id = sym key ∙ sym like.id in
    let new_owner : user_id ≡ new.owner_id = sym owner ∙ sym like.owner_id in
    let there : reach rows new.owner_id new.id ≡ some rag = rw (new_key, new_owner) at found in
    change rag new (mine ∙ ap user new_owner) there (
      ap reach e
      ∙ reach_ext _ _ (λ owner_id rag_id.
        reach-map new rag owner_id rag_id rows (like.deleted_at ∙ alive) (once new.id) there))
change-Move actor rows rows' once (deleted user_id gone now rag mine found e) =
    remove user_id gone rag mine found (
      ap reach e
      ∙ reach_ext _ _ (λ owner_id rag_id.
        reach-deleted now gone user_id rag owner_id rag_id rows (once gone) found))

-- A move of someone else.
Move-view :
    {a : Actor} {v v' : View} (owner_id rag_id : ℕ)
    → Move a v v'
    → a ≢ user owner_id
    → a ≢ purging rag_id
    → v' owner_id rag_id ≡ v owner_id rag_id
unfolding put erase forget
Move-view owner_id rag_id (keep e) other kept = rw e refl
Move-view owner_id rag_id (add rag mine free e) other kept =
    let differs : owner_id ≢ rag.owner_id = λ p. other (mine ∙ ap user (sym p)) in
    rw e (ground (arith, differs))
Move-view owner_id rag_id (change old rag mine there e) other kept =
    let differs : owner_id ≢ rag.owner_id = λ p. other (mine ∙ ap user (sym p)) in
    rw e (ground (arith, differs))
Move-view owner_id rag_id (remove owner gone old mine there e) other kept =
    let differs : owner_id ≢ owner = λ p. other (mine ∙ ap user (sym p)) in
    rw e (ground (arith, differs))
Move-view owner_id rag_id (purge gone mine e) other kept =
    let differs : rag_id ≢ gone = λ p. kept (mine ∙ ap purging (sym p)) in
    rw e (ground (arith, differs))

module _ {S I : Type 0} (env : Worker S I) (fold : Text → Text)
    (normalize : Text → Option Text) where
  -- The worker is told apart by the task that it takes.
  unfoldable pub run_by : Task → Actor
  run_by (World.expand_archive batch_id staging_key) = background
  run_by (World.import_s3_prefix batch_id prefix) = background
  run_by (World.purge_rag rag_id) = purging rag_id
  run_by (World.purge_document rag_id document_id storage_key source_bucket) = background

  unfoldable pub actor : {w w' : World S I} → Step env fold normalize w w' → Actor
  unfolding caller run_by
  actor (request r w) = caller r
  actor (ingest document_id rest w e) = background
  actor (maintain task rest w e) = run_by task
  actor (elapse later store index w) = background

  -- The purge of a set stops at the first part that raises, or removes its row.
  purge_rag-Move :
      (rag_id : ℕ) (w : World S I)
      → Move (purging rag_id) (reach w.db.rag_sets) (reach (purge_rag env rag_id w).1.db.rag_sets)
  unfolding purge_rag delete_rag_row
  purge_rag-Move rag_id w =
      let rows = w.db.rag_sets in
      let Moved : World S I → Type 0 =
        λ t. Move (purging rag_id) (reach rows) (reach t.db.rag_sets) in
      let (r₁, index) =
        Search.delete_rag env.digest env.client env.settings (env.render rag_id) w.index in
      let (r₂, store) =
        delete_prefix env.s3 env.settings.s3_bucket_docs (env.render rag_id ++ slash ∷ [])
          w.store in
      let (r₃, store') = delete env.s3 env.settings.s3_bucket_icons (env.render rag_id) store in
      lift_ind (λ _. Moved) r₁ _ (record w { index = index }) (λ e. keep refl)
        (λ deleted.
          lift_ind (λ _. Moved) r₂ _ (record w { index = index; store = store }) (λ e. keep refl)
            (λ _.
              lift_ind (λ _. Moved) r₃ _ (record w { index = index; store = store' })
                (λ e. keep refl)
                (λ _.
                  purge rag_id refl
                    (reach_ext _ _ (λ owner_id k. reach-filter rag_id owner_id k rows)))))

  -- What leaves the table of sets alone.
  unmoved : (rows : List RagSet) → KeepsRows (λ db. db.rag_sets ≡ rows)
  unmoved rows = sets-KeepsRows (λ l. l ≡ rows)

  run_task-Move :
      (task : Task) (w : World S I)
      → Move
          (run_by task)
          (reach w.db.rag_sets)
          (reach (run_task env fold normalize task w).1.db.rag_sets)
  unfolding run_task run_by
  run_task-Move (World.expand_archive batch_id staging_key) w =
      keep
        (ap reach (expand_archive-Keeps env _ (unmoved w.db.rag_sets) batch_id staging_key w refl))
  run_task-Move (World.import_s3_prefix batch_id prefix) w =
      keep (ap reach (import_s3_prefix-Keeps env _ (unmoved w.db.rag_sets) batch_id prefix w refl))
  run_task-Move (World.purge_rag rag_id) w = purge_rag-Move rag_id w
  run_task-Move (World.purge_document rag_id document_id storage_key source_bucket) w = keep (
      ap reach (
        purge_document-Keeps env _ (unmoved w.db.rag_sets) (env.render rag_id)
          (env.render document_id) storage_key source_bucket w refl))

  -- A step of the service, in a state that it reaches, is one move of the machine of views on behalf of
  -- its actor: nothing that owners can reach changes, or a user gets a new set under a key that nobody
  -- has, gives new values to a set that it has, or loses one, or the job that purges a set takes its
  -- key from everyone.
  pub reachable-Move :
      {w w' : World S I}
      → Reachable env fold normalize w
      → (s : Step env fold normalize w w') → Move (actor s) (view w.db) (view w'.db)
  unfolding actor view get_rag
  reachable-Move before (request r w) =
      change-Move (caller r) w.db.rag_sets _
        (reachable-IsConsistent env fold normalize before).rag_ids
        (handle-Change env fold normalize r w)
  reachable-Move before (ingest document_id rest w e) = keep (
      ap reach (
        ingest_document-Keeps env _ (unmoved w.db.rag_sets) document_id
          (record w { ingest_queue = rest }) refl))
  reachable-Move before (maintain task rest w e) =
      run_task-Move task (record w { maintenance_queue = rest })
  reachable-Move before (elapse later store index w) = keep refl

  -- Steps one after the other, none of them by the owner and none that purges the set.
  pub data Others (owner_id rag_id : ℕ) (w : World S I) : World S I → Type 0 where
    none_yet : Others owner_id rag_id w w
    one_more :
        {w' w'' : World S I}
        → Others owner_id rag_id w w'
        → (s : Step env fold normalize w' w'') → actor s ≢ user owner_id
        → actor s ≢ purging rag_id
        → Others owner_id rag_id w w''

  reachable-Others :
      (owner_id rag_id : ℕ) {w w' : World S I}
      → Reachable env fold normalize w
      → Others owner_id rag_id w w'
      → Reachable env fold normalize w'
  reachable-Others owner_id rag_id before none_yet = before
  reachable-Others owner_id rag_id before (one_more others s _ _) =
      and_then (reachable-Others owner_id rag_id before others) s

  -- Whatever requests of other users and of the operator and jobs of the worker run, one after the other
  -- in any order and whether or not they raise, the query for a set by its key and owner finds the same
  -- row of the table of sets as before, or none if it found none, as long as the worker does not purge
  -- that set. It says nothing of the documents of the set.
  pub view-Others :
      (owner_id rag_id : ℕ) {w w' : World S I}
      → Reachable env fold normalize w
      → Others owner_id rag_id w w'
      → view w'.db owner_id rag_id ≡ view w.db owner_id rag_id
  view-Others owner_id rag_id before none_yet = refl
  view-Others owner_id rag_id before (one_more others s not_owner not_purge) =
      Move-view owner_id rag_id (reachable-Move (reachable-Others owner_id rag_id before others) s)
        not_owner not_purge
      ∙ view-Others owner_id rag_id before others
