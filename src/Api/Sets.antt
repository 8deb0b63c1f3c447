-- ===== src/Api/Sets.antt =====
-- app/api/rags.py: creation and reading of sets, with `RagCreate`, `RagFromBucketIn` and the answers of
-- app/schemas/rags.py. `fold` is Postgres' `lower`.
use rag_ingestion_service.Prelude.{
  Bool, List, Option, Text, false, if◌then◌else◌, is_empty, leb, length, map, nat_eq, none, not,
  option_eq, some, text_eq, true, ℕ, ◌*◌, ◌==◌,
}
use rag_ingestion_service.Prelude.Result.{Result, ok, err}
use rag_ingestion_service.Prelude.Filter.{filter}
use rag_ingestion_service.BucketImport.{Rejected, select}
use rag_ingestion_service.Errors.{
  Exception, http_exception, integrity_error, too_many_sets, name_taken, bucket_not_found,
  no_objects, nothing_accepted,
}
use rag_ingestion_service.Exec.{Exec, pure, raise, gets, ◌>>=◌, ◌>>◌}
use rag_ingestion_service.Models.{RagSet, insert_rag}
use rag_ingestion_service.Repo
use rag_ingestion_service.Repo.{
  RagStatus, DocumentCounts, no_counts, scalar_one_or_none, has_pending, status_of, counts_for,
  counts_for_many, get_counts, count_rags,
}
use rag_ingestion_service.Storage.{RemoteObject, bucket_exists, list_objects}
use rag_ingestion_service.World.{World, on_store, fresh_id, transaction}
use rag_ingestion_service.Jobs.{Worker}
use rag_ingestion_service.Api.{owned}
use rag_ingestion_service.Api.Remote.{AcceptedDocument, register_remote}

pub record RagCreate : Type 0 where
  pub name : Text
  pub description : Option Text
  pub prompt : Option Text
  pub temperature : ℕ
  pub top_k : ℕ
  pub score_threshold : ℕ

pub record RagFromBucketIn : Type 0 where
  pub create : RagCreate
  pub bucket : Text
  pub prefix : Text
  pub recursive : Bool
  pub extensions : List Text

pub record RagConfig : Type 0 where
  pub prompt : Option Text
  pub temperature : ℕ
  pub top_k : ℕ
  pub score_threshold : ℕ

pub record RagOut : Type 0 where
  pub id : ℕ
  pub name : Text
  pub description : Option Text
  pub status : RagStatus
  pub has_icon : Bool
  pub documents : DocumentCounts
  pub has_pending : Bool
  pub config : RagConfig
  pub created_at : ℕ
  pub updated_at : ℕ

pub record FromBucketOut : Type 0 where
  pub rag_id : ℕ
  pub name : Text
  pub status : RagStatus
  pub accepted_documents : List AcceptedDocument
  pub rejected_documents : List Rejected

-- `_to_out`; the counts stand with their sum of chunks.
unfoldable pub to_out : RagSet → DocumentCounts → RagOut
to_out rag counts = record {
  id = rag.id;
  name = rag.name;
  description = rag.description;
  status = status_of counts;
  has_icon = elim rag.icon_key [ some _ ↦ true | none ↦ false ];
  documents = counts;
  has_pending = has_pending counts;
  config = record {
    prompt = rag.prompt;
    temperature = rag.temperature;
    top_k = rag.top_k;
    score_threshold = rag.score_threshold;
  };
  created_at = rag.created_at;
  updated_at = rag.updated_at;
}

-- The row of `RagSet(owner_id=user_id, **payload.model_dump())`.
abbrev pub new_rag : ℕ → ℕ → ℕ → RagCreate → RagSet
new_rag now id owner_id payload = record {
  id = id;
  owner_id = owner_id;
  name = payload.name;
  description = payload.description;
  prompt = payload.prompt;
  temperature = payload.temperature;
  top_k = payload.top_k;
  score_threshold = payload.score_threshold;
  icon_key = none;
  created_at = now;
  updated_at = now;
  deleted_at = none;
}

-- `except IntegrityError`, around a commit.
abbrev as_name_taken : Exception → Exception
as_name_taken integrity_error = http_exception 409 name_taken
as_name_taken e = e

abbrev pub renamed : {A : Type 0} → Result Exception A → Result Exception A
renamed (ok a) = ok a
renamed (err e) = err (as_name_taken e)

abbrev pub catch_integrity_error : {S A : Type 0} → Exec S A → Exec S A
catch_integrity_error m s = let (r, s') = m s in (renamed r, s')

-- `session.get(RagSet, rag_id)`
abbrev pub any_rag : ℕ → List RagSet → Option RagSet
any_rag rag_id rows = scalar_one_or_none (filter (λ r. r.id == rag_id) rows)

module _ {S I : Type 0} (env : Worker S I) (fold : Text → Text) where
  open env use {s3, settings, digest}

  unfoldable pub has_room : ℕ → Exec (World S I) (Unit {0})
  has_room user_id = do
    sets ← gets (λ (w : World S I). count_rags w.db user_id)
    if leb settings.rag_max_sets_per_owner sets
        then raise (http_exception 409 (too_many_sets settings.rag_max_sets_per_owner))
        else pure tt

  unfoldable pub add_rag : RagCreate → ℕ → Exec (World S I) RagSet
  add_rag payload user_id = do
    id ← fresh_id
    now ← gets (λ (w : World S I). w.now)
    catch_integrity_error
        (transaction (λ (w : World S I). insert_rag fold (new_rag now id user_id payload) w.db))
    pure (new_rag now id user_id payload)

  unfoldable pub create_rag : RagCreate → ℕ → Exec (World S I) RagOut
  unfolding has_room add_rag
  create_rag payload user_id = do
    has_room user_id
    rag ← add_rag payload user_id
    pure (to_out rag no_counts)

  -- The part of `create_from_bucket` behind the selection.
  unfoldable pub create_selected :
      RagFromBucketIn → ℕ → List RemoteObject → List Rejected → Exec (World S I) FromBucketOut
  unfolding has_room add_rag
  create_selected payload user_id accepted rejected = do
    has_room user_id
    rag ← add_rag payload.create user_id
    documents ← register_remote env rag.id payload.bucket accepted
    counts ← gets (λ (w : World S I). counts_for w.db rag.id)
    pure (record {
      rag_id = rag.id;
      name = rag.name;
      status = status_of counts;
      accepted_documents = documents;
      rejected_documents = rejected;
    })

  unfoldable pub create_listed :
      RagFromBucketIn → ℕ → List RemoteObject → Exec (World S I) FromBucketOut
  unfolding create_selected
  create_listed payload user_id objects =
      let selection = select digest settings payload.bucket objects payload.extensions in
      if is_empty objects
      then raise (http_exception 400 (no_objects payload.bucket))
      else if is_empty selection.accepted
      then raise (http_exception 400 (nothing_accepted (length objects)))
      else create_selected payload user_id selection.accepted selection.rejected

  unfoldable pub create_from_bucket : RagFromBucketIn → ℕ → Exec (World S I) FromBucketOut
  unfolding create_listed
  create_from_bucket payload user_id = do
    there ← gets (λ (w : World S I). bucket_exists s3 payload.bucket w.store)
    if not there then raise (http_exception 404 (bucket_not_found payload.bucket)) else (do
      objects ← on_store (
          list_objects s3 payload.bucket payload.prefix payload.recursive
            (settings.bucket_import_max_files * 2))
      create_listed payload user_id objects)

  unfoldable pub list_rags : ℕ → Exec (World S I) (List RagOut)
  list_rags user_id = do
    rags ← gets (λ (w : World S I). Repo.list_rags w.db user_id)
    counts ← gets (λ (w : World S I). counts_for_many w.db (map (λ r. r.id) rags))
    pure (map (λ (r : RagSet). to_out r (get_counts r.id counts)) rags)

  unfoldable pub with_counts : RagSet → Exec (World S I) RagOut
  with_counts rag = do
    counts ← gets (λ (w : World S I). counts_for w.db rag.id)
    pure (to_out rag counts)

  unfoldable pub get_rag : ℕ → ℕ → Exec (World S I) RagOut
  unfolding with_counts
  get_rag rag_id user_id = do rag ← owned env rag_id user_id; with_counts rag
