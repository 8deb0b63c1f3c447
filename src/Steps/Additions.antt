-- ===== src/Steps/Additions.antt =====
-- app/api/rags.py: where adding a set of the caller, with room for it, leads from `B` to `P`, and `P`
-- speaks of what the statements on documents keep, the handlers that create a set lead from `B` to `P`.
use rag_ingestion_service.Prelude.Result.{ok}
use rag_ingestion_service.Exec.{lift_ind, >>=-Keeps, Exec, pure, continue, >>=-keeps_at, ◌>>=◌}
use rag_ingestion_service.Api.Sets.{
  FromBucketOut, RagCreate, RagFromBucketIn, new_rag, has_room, add_rag, create_rag,
  create_selected, create_listed, create_from_bucket, renamed,
}
use rag_ingestion_service.BucketImport.{Rejected, select}
use rag_ingestion_service.Storage.{RemoteObject, list_objects, bucket_exists}
use rag_ingestion_service.World.{World, transaction_ind}
use rag_ingestion_service.Api.Remote.{register_remote}
use rag_ingestion_service.Steps.Jobs.{Holds}
use rag_ingestion_service.Steps.Remote.{register_remote-Keeps}
use rag_ingestion_service.Models.{insert_rag, RagSet, Db}
use rag_ingestion_service.Repo.{count_rags}
use rag_ingestion_service.Models.Stable.{KeepsRows}
use rag_ingestion_service.Jobs.{Worker}
use rag_ingestion_service.Prelude.{
  List, Text, false, if_ind, is_empty, leb, nat_eq, none, not, option_eq, refl, text_eq, ℕ, ◌*◌,
  ◌+◌, ◌≡◌,
}

module _ {S I : Type 0} (env : Worker S I) (fold : Text → Text) (user_id : ℕ) (B P : Db → Type 0)
    (rows : KeepsRows P) (weaken : (db : Db) → B db → P db)
    (on_insert : (rag : RagSet) (db db' : Db)
      → rag.owner_id ≡ user_id
      → rag.deleted_at ≡ none
      → leb env.settings.rag_max_sets_per_owner (count_rags db user_id) ≡ false
      → insert_rag fold rag db ≡ ok db'
      → B db
      → P db') where
  open env use {settings, digest}

  abbrev Kept : World S I → Type 0
  Kept = Holds env P rows

  add_rag-keeps :
      (payload : RagCreate) (w : World S I)
      → leb settings.rag_max_sets_per_owner (count_rags w.db user_id) ≡ false
      → B w.db
      → Kept (add_rag env fold payload user_id w).1
  unfolding add_rag
  add_rag-keeps payload w room h =
      let rag = new_rag w.now w.next_id user_id payload in
      transaction_ind (λ r (t : World S I). Kept (continue (renamed r) (λ _. pure rag) t).1)
        (λ (t : World S I). insert_rag fold rag t.db) (record w { next_id = w.next_id + 1 })
        (λ db e. on_insert rag w.db db refl refl room e h) (λ e. weaken w.db h)

  -- Behind the test of the quota there is room.
  has_room-keeps :
      {A : Type 0} (rest : Unit {0} → Exec (World S I) A) (w : World S I)
      → (leb settings.rag_max_sets_per_owner (count_rags w.db user_id) ≡ false → Kept (rest tt w).1)
      → B w.db
      → Kept ((has_room env fold user_id >>= rest) w).1
  unfolding has_room
  has_room-keeps rest w keep h =
      if_ind (λ (m : Exec (World S I) (Unit {0})). Kept (continue (m w).0 rest (m w).1).1)
        (leb settings.rag_max_sets_per_owner (count_rags w.db user_id)) (λ _. weaken w.db h)
        (λ room. keep room)

  create_selected-keeps :
      (payload : RagFromBucketIn) (accepted : List RemoteObject) (rejected : List Rejected)
      (w : World S I)
      → B w.db
      → Kept (create_selected env fold payload user_id accepted rejected w).1
  unfolding create_selected
  create_selected-keeps payload accepted rejected w h =
      has_room-keeps _ w
        (λ room.
          >>=-keeps_at Kept (add_rag env fold payload.create user_id) _ w
            (add_rag-keeps payload.create w room h)
            (λ rag.
              >>=-Keeps Kept (register_remote env rag.id payload.bucket accepted) _
                (register_remote-Keeps env P rows rag.id payload.bucket accepted) (λ _ s p. p)))
        h

  pub create_rag-keeps :
      (payload : RagCreate) (w : World S I)
      → B w.db
      → P (create_rag env fold payload user_id w).1.db
  unfolding create_rag
  create_rag-keeps payload w h =
      has_room-keeps _ w
        (λ room.
          >>=-keeps_at Kept (add_rag env fold payload user_id) _ w (add_rag-keeps payload w room h)
            (λ _ s p. p))
        h

  create_listed-keeps :
      (payload : RagFromBucketIn) (objects : List RemoteObject) (w : World S I)
      → B w.db
      → Kept (create_listed env fold payload user_id objects w).1
  unfolding create_listed
  create_listed-keeps payload objects w h =
      let selection = select digest settings payload.bucket objects payload.extensions in
      if_ind (λ (m : Exec (World S I) FromBucketOut). Kept (m w).1) (is_empty objects)
        (λ _. weaken w.db h)
        (λ _.
          if_ind (λ (m : Exec (World S I) FromBucketOut). Kept (m w).1)
            (is_empty selection.accepted) (λ _. weaken w.db h)
            (λ _. create_selected-keeps payload selection.accepted selection.rejected w h))

  pub create_from_bucket-keeps :
      (payload : RagFromBucketIn) (w : World S I)
      → B w.db
      → P (create_from_bucket env fold payload user_id w).1.db
  unfolding create_from_bucket
  create_from_bucket-keeps payload w h =
      let listing =
        list_objects env.s3 payload.bucket payload.prefix payload.recursive
          (settings.bucket_import_max_files * 2) w.store in
      if_ind (λ (m : Exec (World S I) FromBucketOut). Kept (m w).1)
        (not (bucket_exists env.s3 payload.bucket w.store)) (λ _. weaken w.db h)
        (λ _.
          lift_ind (λ _ (t : World S I). Kept t) listing.0 (create_listed env fold payload user_id)
            (record w { store = listing.1 }) (λ e. weaken w.db h)
            (λ objects. create_listed-keeps payload objects (record w { store = listing.1 }) h))
