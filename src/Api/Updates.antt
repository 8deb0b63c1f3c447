-- ===== src/Api/Updates.antt =====
-- app/api/rags.py: changes of sets and their icons, with `RagUpdate` of app/schemas/rags.py. `fold` is
-- Postgres' `lower`, and `normalize` is what Pillow makes of an icon, `none` if it raises.
use rag_ingestion_service.Prelude.{
  Bool, Option, Text, contains, if◌then◌else◌, length, ltb, map, nat_eq, none, not, option_eq, some,
  take, text_eq, ℕ, ◌&&◌, ◌+◌, ◌==◌,
}
use rag_ingestion_service.Prelude.Result.{Result, ok, err}
use mathlib.Core.List.{flatten}
use rag_ingestion_service.Errors.{
  Exception, http_exception, integrity_error, bad_icon_type, icon_too_large, not_an_image,
  icon_not_set,
}
use rag_ingestion_service.Exec.{Exec, pure, raise, gets, lift, ◌>>=◌, ◌>>◌}
use rag_ingestion_service.Models.{Db, RagSet, update_rag_row}
use rag_ingestion_service.Storage.{put_bytes, get_bytes}
use rag_ingestion_service.World.{World, on_store, transaction}
use rag_ingestion_service.Jobs.{Worker}
use rag_ingestion_service.Api.{UploadFile, owned}
use rag_ingestion_service.Api.Sets.{RagOut, any_rag, catch_integrity_error, with_counts}

-- A field that is left out is `none`; a field that is null is `some none`.
pub record RagUpdate : Type 0 where
  pub name : Option (Option Text)
  pub description : Option (Option Text)
  pub prompt : Option (Option Text)
  pub temperature : Option (Option ℕ)
  pub top_k : Option (Option ℕ)
  pub score_threshold : Option (Option ℕ)

-- `setattr` on a column that may be null.
abbrev pub given : {A : Type 0} → Option A → A → A
given none old = old
given (some v) old = v

-- `setattr` on a column that may not be null: the attribute of the row in memory may be `None`
-- afterwards.
abbrev pub written : {A : Type 0} → Option (Option A) → A → Option A
written none old = some old
written (some v) old = v

-- The flush of the row, where the table has `NOT NULL` for the column.
abbrev pub not_null : {A : Type 0} → Option A → Result Exception A
not_null none = err integrity_error
not_null (some v) = ok v

abbrev pub required : {A : Type 0} → Option (Option A) → A → Result Exception A
required change old = not_null (written change old)

abbrev pub same_columns : RagSet → RagSet → Bool
same_columns rag other =
    rag.name == other.name
    && rag.description == other.description
    && rag.prompt == other.prompt
    && rag.temperature == other.temperature
    && rag.top_k == other.top_k
    && rag.score_threshold == other.score_threshold
    && rag.icon_key == other.icon_key

module _ {S I : Type 0} (env : Worker S I) (fold : Text → Text) where
  open env use {s3, settings, render}

  -- A commit of a changed row: without a change no statement is sent and `updated_at` stays.
  unfoldable pub save_rag : RagSet → RagSet → World S I → Result Exception Db
  save_rag rag new w =
      if same_columns rag new
      then ok w.db
      else update_rag_row fold (record new { updated_at = w.now }) w.db

  -- The loop over `payload.model_dump(exclude_unset=True)`.
  unfoldable pub apply_update : RagUpdate → RagSet → Exec (World S I) RagSet
  apply_update payload rag = do
    name ← lift (required payload.name rag.name)
    temperature ← lift (required payload.temperature rag.temperature)
    top_k ← lift (required payload.top_k rag.top_k)
    score_threshold ← lift (required payload.score_threshold rag.score_threshold)
    pure (record rag {
      name = name;
      description = given payload.description rag.description;
      prompt = given payload.prompt rag.prompt;
      temperature = temperature;
      top_k = top_k;
      score_threshold = score_threshold;
    })

  -- The row as it stands after a commit.
  unfoldable pub reread : ℕ → RagSet → World S I → RagSet
  reread rag_id rag w = elim (any_rag rag_id w.db.rag_sets) [ some r ↦ r | none ↦ rag ]

  unfoldable pub change_rag : RagUpdate → RagSet → Exec (World S I) (Unit {0})
  unfolding apply_update save_rag
  change_rag payload rag = do new ← apply_update payload rag; transaction (save_rag rag new)

  unfoldable pub update_rag : ℕ → RagUpdate → ℕ → Exec (World S I) RagOut
  unfolding change_rag with_counts reread
  update_rag rag_id payload user_id = do
    rag ← owned env rag_id user_id
    catch_integrity_error (change_rag payload rag)
    saved ← gets (reread rag_id rag)
    with_counts env fold saved

  -- `rag.icon_key = str(rag_id)`, behind the object.
  unfoldable pub store_icon : ℕ → RagSet → Text → Exec (World S I) RagOut
  unfolding save_rag with_counts reread
  store_icon rag_id rag normalized = do
    on_store (put_bytes s3 settings.s3_bucket_icons (render rag_id) normalized)
    transaction (save_rag rag (record rag { icon_key = some (render rag_id) }))
    saved ← gets (reread rag_id rag)
    with_counts env fold saved

  unfoldable pub put_icon : (Text → Option Text) → ℕ → UploadFile → ℕ → Exec (World S I) RagOut
  unfolding store_icon
  put_icon normalize rag_id file user_id =
      let payload = take (settings.icon_max_bytes + 1) (flatten file.body) in
      if not (contains (map (λ (t : Text). some t) settings.icon_allowed_types) file.content_type)
      then raise (http_exception 415 bad_icon_type)
      else (do
        rag ← owned env rag_id user_id
        if ltb settings.icon_max_bytes (length payload)
            then raise (http_exception 413 (icon_too_large settings.icon_max_bytes))
            else elim (normalize payload) [
              | none ↦ raise (http_exception 415 not_an_image)
              | some normalized ↦ store_icon rag_id rag normalized
            ])

  -- The bytes of the icon; the content type that the store keeps with them is left out.
  unfoldable pub get_icon : ℕ → ℕ → Exec (World S I) Text
  get_icon rag_id user_id = do
    rag ← owned env rag_id user_id
    elim rag.icon_key [
      | none ↦ raise (http_exception 404 icon_not_set)
      | some key ↦ on_store (get_bytes s3 settings.s3_bucket_icons key)
    ]
