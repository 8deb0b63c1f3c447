-- ===== src/Steps/Sets.antt =====
-- app/api/rags.py: what the statements of the service keep of the tables, the handlers that create
-- and change sets keep, whatever they answer.
use rag_ingestion_service.Prelude.{
  List, Option, Text, contains, if_ind, is_empty, leb, length, ltb, map, nat_eq, not, option_eq,
  some, take, text_eq, ℕ, ◌*◌, ◌+◌, ◌≡◌,
}
use rag_ingestion_service.Prelude.Result.{Result, ok}
use rag_ingestion_service.BucketImport.{Rejected, select}
use rag_ingestion_service.Errors.{Exception}
use rag_ingestion_service.Exec.{Keeps, lift, if-Keeps, elim-Keeps, >>=-Keeps}
use rag_ingestion_service.Models.{Db, RagSet, insert_rag}
use rag_ingestion_service.Models.Stable.{IsStable}
use rag_ingestion_service.Repo.{count_rags}
use rag_ingestion_service.Storage.{RemoteObject, list_objects, bucket_exists, put_bytes}
use rag_ingestion_service.World.{World, on_store, transaction}
use rag_ingestion_service.Jobs.{Worker}
use rag_ingestion_service.Api.{UploadFile, owned}
use rag_ingestion_service.Api.Remote.{register_remote}
use rag_ingestion_service.Api.Sets.{
  RagCreate, RagFromBucketIn, new_rag, has_room, add_rag, create_rag, create_selected,
  create_listed, create_from_bucket, catch_integrity_error,
}
use rag_ingestion_service.Api.Updates.{
  RagUpdate, save_rag, same_columns, apply_update, change_rag, update_rag, store_icon, put_icon,
  required,
}
use rag_ingestion_service.Steps.Jobs.{Holds, transaction-Keeps}
use rag_ingestion_service.Steps.Handlers.{owned-Keeps}
use mathlib.Core.List.{flatten}
use rag_ingestion_service.Steps.Remote.{register_remote-Keeps}

module _ {S I : Type 0} (env : Worker S I) (fold : Text → Text) (P : Db → Type 0)
    (stable : IsStable fold P) where
  open env use {settings, digest, render}

  abbrev Kept : World S I → Type 0
  Kept = Holds env P stable.rows

  pub add_rag-Keeps :
      (payload : RagCreate) (user_id : ℕ) → Keeps Kept (add_rag env fold payload user_id)
  unfolding add_rag
  add_rag-Keeps payload user_id w h =
      let insert =
        transaction
          (λ (s : World S I). insert_rag fold (new_rag w.now w.next_id user_id payload) s.db) in
      >>=-Keeps Kept (catch_integrity_error insert) _
        (transaction-Keeps env P stable.rows
          (λ (s : World S I). insert_rag fold (new_rag w.now w.next_id user_id payload) s.db)
          (λ s db. stable.insert_rag (new_rag w.now w.next_id user_id payload) s.db db))
        (λ _ s p. p) _ h

  has_room-Keeps : (user_id : ℕ) → Keeps Kept (has_room env fold user_id)
  unfolding has_room
  has_room-Keeps user_id w =
      if-Keeps Kept (leb settings.rag_max_sets_per_owner (count_rags w.db user_id)) _ _ (λ s h. h)
        (λ s h. h) w

  pub create_rag-Keeps :
      (payload : RagCreate) (user_id : ℕ) → Keeps Kept (create_rag env fold payload user_id)
  unfolding create_rag
  create_rag-Keeps payload user_id =
      >>=-Keeps Kept (has_room env fold user_id) _ (has_room-Keeps user_id) (λ _.
        >>=-Keeps Kept (add_rag env fold payload user_id) _ (add_rag-Keeps payload user_id)
          (λ _ s h. h))

  create_selected-Keeps :
      (payload : RagFromBucketIn) (user_id : ℕ) (accepted : List RemoteObject)
      (rejected : List Rejected)
      → Keeps Kept (create_selected env fold payload user_id accepted rejected)
  unfolding create_selected
  create_selected-Keeps payload user_id accepted rejected =
      >>=-Keeps Kept (has_room env fold user_id) _ (has_room-Keeps user_id) (λ _.
        >>=-Keeps Kept (add_rag env fold payload.create user_id) _
          (add_rag-Keeps payload.create user_id)
          (λ rag.
            >>=-Keeps Kept (register_remote env rag.id payload.bucket accepted) _
              (register_remote-Keeps env P stable.rows rag.id payload.bucket accepted)
              (λ _ s h. h)))

  pub create_from_bucket-Keeps :
      (payload : RagFromBucketIn) (user_id : ℕ)
      → Keeps Kept (create_from_bucket env fold payload user_id)
  unfolding create_from_bucket create_listed
  create_from_bucket-Keeps payload user_id w =
      if-Keeps Kept (not (bucket_exists env.s3 payload.bucket w.store)) _ _ (λ s h. h)
        (>>=-Keeps Kept
          (on_store (
            list_objects env.s3 payload.bucket payload.prefix payload.recursive
              (settings.bucket_import_max_files * 2)))
          _ (λ s h. h)
          (λ objects.
            let selection = select digest settings payload.bucket objects payload.extensions in
            if-Keeps Kept (is_empty objects) _ _ (λ s h. h)
              (if-Keeps Kept (is_empty selection.accepted) _ _ (λ s h. h)
                (create_selected-Keeps payload user_id selection.accepted selection.rejected))))
        w

  save_rag-Keeps : (rag new : RagSet) → Keeps Kept (transaction (save_rag env fold rag new))
  unfolding save_rag
  save_rag-Keeps rag new = transaction-Keeps env P stable.rows (save_rag env fold rag new) (λ w db.
      if_ind (λ (r : Result Exception Db). r ≡ ok db → P w.db → P db) (same_columns rag new)
        (λ _ e h. let same : w.db ≡ db = cc in rw (← same) h)
        (λ _. stable.update_rag_row (record new { updated_at = w.now }) w.db db))

  apply_update-Keeps :
      (payload : RagUpdate) (rag : RagSet) → Keeps Kept (apply_update env fold payload rag)
  unfolding apply_update
  apply_update-Keeps payload rag =
      >>=-Keeps Kept (lift (required payload.name rag.name)) _ (λ s h. h)
        (λ name.
          >>=-Keeps Kept (lift (required payload.temperature rag.temperature)) _ (λ s h. h)
            (λ temperature.
              >>=-Keeps Kept (lift (required payload.top_k rag.top_k)) _ (λ s h. h)
                (λ top_k.
                  >>=-Keeps Kept (lift (required payload.score_threshold rag.score_threshold)) _
                    (λ s h. h) (λ score_threshold s h. h))))

  pub update_rag-Keeps :
      (rag_id : ℕ) (payload : RagUpdate) (user_id : ℕ)
      → Keeps Kept (update_rag env fold rag_id payload user_id)
  unfolding update_rag change_rag
  update_rag-Keeps rag_id payload user_id =
      >>=-Keeps Kept (owned env rag_id user_id) _ (owned-Keeps env P stable.rows rag_id user_id)
        (λ rag.
          >>=-Keeps Kept (catch_integrity_error (change_rag env fold payload rag)) _
            (>>=-Keeps Kept (apply_update env fold payload rag) _ (apply_update-Keeps payload rag)
              (λ new. save_rag-Keeps rag new))
            (λ _ s h. h))

  store_icon-Keeps :
      (rag_id : ℕ) (rag : RagSet) (normalized : Text)
      → Keeps Kept (store_icon env fold rag_id rag normalized)
  unfolding store_icon
  store_icon-Keeps rag_id rag normalized =
      >>=-Keeps Kept
        (on_store (put_bytes env.s3 settings.s3_bucket_icons (render rag_id) normalized)) _
        (λ s h. h)
        (λ _.
          >>=-Keeps Kept
            (transaction (save_rag env fold rag (record rag { icon_key = some (render rag_id) }))) _
            (save_rag-Keeps rag (record rag { icon_key = some (render rag_id) })) (λ _ s h. h))

  pub put_icon-Keeps :
      (normalize : Text → Option Text) (rag_id : ℕ) (file : UploadFile) (user_id : ℕ)
      → Keeps Kept (put_icon env fold normalize rag_id file user_id)
  unfolding put_icon
  put_icon-Keeps normalize rag_id file user_id =
      let payload = take (settings.icon_max_bytes + 1) (flatten file.body) in
      if-Keeps Kept
        (not (contains (map (λ (t : Text). some t) settings.icon_allowed_types) file.content_type))
        _ _ (λ s h. h)
        (>>=-Keeps Kept (owned env rag_id user_id) _ (owned-Keeps env P stable.rows rag_id user_id)
          (λ rag.
            if-Keeps Kept (ltb settings.icon_max_bytes (length payload)) _ _ (λ s h. h)
              (elim-Keeps Kept (normalize payload) _ _ (λ s h. h) (store_icon-Keeps rag_id rag))))
