-- ===== src/Steps/Edits.antt =====
-- app/api/rags.py: where new values of a set of the caller lead from `B` to `P`, the handlers that
-- change a set or its icon lead from `B` to `P`.
use rag_ingestion_service.Exec.{lift_ind, Exec, continue, >>=-keeps_at, ◌>>=◌, raise}
use rag_ingestion_service.Errors.{http_exception, rag_not_found, not_an_image, Exception}
use rag_ingestion_service.Models.{update_rag_row, Db, RagSet}
use rag_ingestion_service.Repo
use rag_ingestion_service.Repo.{count_rags}
use rag_ingestion_service.Storage.{put_bytes}
use rag_ingestion_service.World.{transaction, transaction_ind, World}
use rag_ingestion_service.Api.{UploadFile, owned}
use rag_ingestion_service.Api.Sets.{RagOut, catch_integrity_error}
use rag_ingestion_service.Api.Updates.{
  RagUpdate, save_rag, same_columns, apply_update, required, change_rag, update_rag, store_icon,
  put_icon,
}
use rag_ingestion_service.Prelude.Result.{err, ok, Result}
use rag_ingestion_service.Jobs.{Worker}
use rag_ingestion_service.Prelude.{
  Option, Text, contains, if_ind, length, ltb, map, nat_eq, none, not, option_eq, refl, some, take,
  text_eq, ℕ, ◌+◌, ◌≡◌,
}
use mathlib.Core.List.{flatten}

-- The same set of the same owner, alive or not as before.
pub record IsSameSet (rag new : RagSet) : Type 0 where
  pub id : new.id ≡ rag.id
  pub owner_id : new.owner_id ≡ rag.owner_id
  pub deleted_at : new.deleted_at ≡ rag.deleted_at

module _ {S I : Type 0} where
  -- An update gives new values to the set, and changes no state.
  Updated : RagSet → World S I → Result Exception RagSet → World S I → Type 0
  Updated rag w (ok new) s = IsSameSet rag new × (s ≡ w)
  Updated rag w (err e) s = s ≡ w

  apply_update-Updated :
      (env : Worker S I) (fold : Text → Text) (payload : RagUpdate) (rag : RagSet) (w : World S I)
      → Updated rag w
          (apply_update env fold payload rag w).0
          (apply_update env fold payload rag w).1
  unfolding apply_update Updated
  apply_update-Updated env fold payload rag w =
      lift_ind (Updated rag w) (required payload.name rag.name) _ w (λ e. refl)
        (λ name.
          lift_ind (Updated rag w) (required payload.temperature rag.temperature) _ w (λ e. refl)
            (λ temperature.
              lift_ind (Updated rag w) (required payload.top_k rag.top_k) _ w (λ e. refl)
                (λ top_k.
                  lift_ind (Updated rag w) (required payload.score_threshold rag.score_threshold) _
                    w (λ e. refl)
                    (λ score_threshold.
                      (record { id = refl; owner_id = refl; deleted_at = refl }, refl)))))

module _ {S I : Type 0} (env : Worker S I) (P : World S I → Type 0) where
  -- What the rest keeps for a set that is found is kept behind `owned`.
  pub owned-keeps_at :
      {A : Type 0} (rag_id user_id : ℕ) (rest : RagSet → Exec (World S I) A) (w : World S I)
      → P w
      → ((rag : RagSet) → Repo.get_rag w.db rag_id user_id ≡ some rag → P (rest rag w).1)
      → P ((owned env rag_id user_id >>= rest) w).1
  unfolding owned
  owned-keeps_at rag_id user_id rest w h found = go (Repo.get_rag w.db rag_id user_id) refl
    where
      go :
          (o : Option RagSet)
          → Repo.get_rag w.db rag_id user_id ≡ o
          → P
              (continue
                (elim o [ some rag ↦ ok rag | none ↦ err (http_exception 404 rag_not_found) ])
                rest
                w).1
      go (some rag) e = found rag e
      go none e = h

module _ {S I : Type 0} (env : Worker S I) (fold : Text → Text) (user_id : ℕ) (B P : Db → Type 0)
    (weaken : (db : Db) → B db → P db)
    (on_update : (rag_id : ℕ) (rag new : RagSet) (db db' : Db)
      → Repo.get_rag db rag_id user_id ≡ some rag
      → IsSameSet rag new
      → update_rag_row fold new db ≡ ok db'
      → B db
      → P db') where
  open env use {settings}

  abbrev Kept : World S I → Type 0
  Kept w = P w.db

  save_rag-keeps :
      (rag_id : ℕ) (rag new : RagSet) (w : World S I)
      → Repo.get_rag w.db rag_id user_id ≡ some rag
      → IsSameSet rag new
      → B w.db
      → Kept (transaction (save_rag env fold rag new) w).1
  unfolding save_rag
  save_rag-keeps rag_id rag new w found same h =
      transaction_ind (λ _ (t : World S I). Kept t) (save_rag env fold rag new) w
        (λ db e.
          if_ind (λ (r : Result Exception Db). r ≡ ok db → P db) (same_columns rag new)
            (λ _ e'. let kept : w.db ≡ db = cc in rw (← kept) (weaken w.db h))
            (λ _ e'.
              on_update rag_id rag (record new { updated_at = w.now }) w.db db found
                (record { id = same.id; owner_id = same.owner_id; deleted_at = same.deleted_at }) e'
                h)
            e)
        (λ e. weaken w.db h)

  change_rag-keeps :
      (rag_id : ℕ) (payload : RagUpdate) (rag : RagSet) (w : World S I)
      → Repo.get_rag w.db rag_id user_id ≡ some rag
      → B w.db
      → Kept (change_rag env fold payload rag w).1
  unfolding change_rag Updated
  change_rag-keeps rag_id payload rag w found h =
      go (apply_update env fold payload rag w).0 (apply_update env fold payload rag w).1
        (apply_update-Updated env fold payload rag w)
    where
      go :
          (r : Result Exception RagSet) (s : World S I)
          → Updated rag w r s
          → Kept (continue r (λ new. transaction (save_rag env fold rag new)) s).1
      go (ok new) s (same, e) = rw e (save_rag-keeps rag_id rag new w found same h)
      go (err x) s e = rw e (weaken w.db h)

  pub update_rag-keeps :
      (rag_id : ℕ) (payload : RagUpdate) (w : World S I)
      → B w.db
      → Kept (update_rag env fold rag_id payload user_id w).1
  unfolding update_rag
  update_rag-keeps rag_id payload w h =
      owned-keeps_at env Kept rag_id user_id _ w (weaken w.db h) (λ rag found.
        >>=-keeps_at Kept (catch_integrity_error (change_rag env fold payload rag)) _ w
          (change_rag-keeps rag_id payload rag w found h) (λ _ s p. p))

  store_icon-keeps :
      (rag_id : ℕ) (rag : RagSet) (normalized : Text) (w : World S I)
      → Repo.get_rag w.db rag_id user_id ≡ some rag
      → B w.db
      → Kept (store_icon env fold rag_id rag normalized w).1
  unfolding store_icon
  store_icon-keeps rag_id rag normalized w found h =
      let new = record rag { icon_key = some (env.render rag_id) } in
      let (r, s) =
        put_bytes env.s3 settings.s3_bucket_icons (env.render rag_id) normalized w.store in
      lift_ind (λ _ (t : World S I). Kept t) r _ (record w { store = s }) (λ e. weaken w.db h)
        (λ _.
          >>=-keeps_at Kept (transaction (save_rag env fold rag new)) _ (record w { store = s })
            (save_rag-keeps rag_id rag new (record w { store = s }) found
              (record { id = refl; owner_id = refl; deleted_at = refl }) h)
            (λ _ t p. p))

  pub put_icon-keeps :
      (normalize : Text → Option Text) (rag_id : ℕ) (file : UploadFile) (w : World S I)
      → B w.db
      → Kept (put_icon env fold normalize rag_id file user_id w).1
  unfolding put_icon
  put_icon-keeps normalize rag_id file w h =
      let payload = take (settings.icon_max_bytes + 1) (flatten file.body) in
      if_ind (λ (m : Exec (World S I) RagOut). Kept (m w).1)
        (not (contains (map (λ (t : Text). some t) settings.icon_allowed_types) file.content_type))
        (λ _. weaken w.db h)
        (λ _. owned-keeps_at env Kept rag_id user_id _ w (weaken w.db h) (λ rag found.
          if_ind (λ (m : Exec (World S I) RagOut). Kept (m w).1)
            (ltb settings.icon_max_bytes (length payload)) (λ _. weaken w.db h)
            (λ _. go rag found (normalize payload))))
    where
      go :
          (rag : RagSet)
          → Repo.get_rag w.db rag_id user_id ≡ some rag
          → (o : Option Text)
          → (let m : Exec (World S I) RagOut = elim o [
            | none ↦ raise (http_exception 415 not_an_image)
            | some normalized ↦ store_icon env fold rag_id rag normalized
          ] in
              Kept (m w).1)
      go rag found none = weaken w.db h
      go rag found (some normalized) = store_icon-keeps rag_id rag normalized w found h
