-- ===== src/Steps/Changes.antt =====
-- app/api/rags.py and app/api/admin.py: what a request makes of the table of sets.
use rag_ingestion_service.Prelude.{
  leb, List, Option, Text, [], ap, arith, false, if◌then◌else◌, map, nat_eq, none, option_eq, refl,
  some, sym, text_eq, ℕ, ◌++◌, ◌==◌, ◌∷◌, ◌≡◌,
}
use rag_ingestion_service.Prelude.Result.{ok}
use rag_ingestion_service.Prelude.Filter.{any}
use rag_ingestion_service.Errors.{integrity_error}
use rag_ingestion_service.Models.{Db, RagSet, insert_rag, update_rag_row}
use rag_ingestion_service.Models.Stable.{KeepsRows, sets-KeepsRows}
use rag_ingestion_service.Models.Writes.{guarded}
use rag_ingestion_service.Repo
use rag_ingestion_service.Repo.{count_rags, soft_delete_rag}
use rag_ingestion_service.Repo.Views.{reach}
use rag_ingestion_service.World.{World}
use rag_ingestion_service.Jobs.{Worker}
use rag_ingestion_service.Api
use rag_ingestion_service.Api.{UploadFile, owned}
use rag_ingestion_service.Steps.{
  Request, post_rag, post_from_bucket, patch_rag, put_rag_icon, remove_rag, post_documents,
  post_documents_from_bucket, remove_one_document, post_archive, post_staging_import, handle,
}
use rag_ingestion_service.Steps.Handlers.{
  upload_documents-Keeps, remove_document-Keeps, import_archive-Keeps, import_from_staging-Keeps,
}
use rag_ingestion_service.Steps.Remote.{add_documents_from_bucket-Keeps}
use rag_ingestion_service.Steps.Additions.{create_rag-keeps, create_from_bucket-keeps}
use rag_ingestion_service.Steps.Edits.{IsSameSet, owned-keeps_at, update_rag-keeps, put_icon-keeps}

-- On whose behalf a step is taken: a user, the operator, or the worker, when it purges a set and when
-- it does not.
pub data Actor : Type 0 where
  user : ℕ → Actor
  operator background : Actor
  purging : ℕ → Actor

unfoldable pub caller : Request → Actor
caller (post_rag payload user_id) = user user_id
caller (post_from_bucket payload user_id) = user user_id
caller (patch_rag rag_id payload user_id) = user user_id
caller (put_rag_icon rag_id file user_id) = user user_id
caller (remove_rag rag_id user_id) = user user_id
caller (post_documents rag_id files user_id) = user user_id
caller (post_documents_from_bucket rag_id payload user_id) = user user_id
caller (remove_one_document rag_id document_id user_id) = user user_id
caller (post_archive rag_id file user_id) = user user_id
caller (post_staging_import rag_id prefix) = operator

-- One statement at most, on a set of the caller.
pub data Change (actor : Actor) (rows rows' : List RagSet) : Type 0 where
  same : rows' ≡ rows → Change actor rows rows'
  added :
      (new : RagSet)
      → actor ≡ user new.owner_id
      → new.deleted_at ≡ none
      → any (λ r. r.id == new.id) rows ≡ false
      → rows' ≡ rows ++ new ∷ []
      → Change actor rows rows'
  replaced :
      (user_id k : ℕ) (rag new : RagSet)
      → actor ≡ user user_id
      → reach rows user_id k ≡ some rag
      → IsSameSet rag new
      → rows' ≡ map (λ r. if r.id == new.id then new else r) rows
      → Change actor rows rows'
  deleted :
      (user_id gone now : ℕ) (rag : RagSet)
      → actor ≡ user user_id
      → reach rows user_id gone ≡ some rag
      → rows'
        ≡ map
            (λ r. if r.id == gone then record r { deleted_at = some now; updated_at = now } else r)
            rows
      → Change actor rows rows'

module _ (fold : Text → Text) (user_id : ℕ) (rows : List RagSet) where
  abbrev Before : Db → Type 0
  Before db = db.rag_sets ≡ rows

  abbrev After : Db → Type 0
  After db = Change (user user_id) rows db.rag_sets

  weaken : (db : Db) → Before db → After db
  weaken db = same

  insert_rag-Change :
      (limit : ℕ) (rag : RagSet) (db db' : Db)
      → rag.owner_id ≡ user_id
      → rag.deleted_at ≡ none
      → leb limit (count_rags db user_id) ≡ false
      → insert_rag fold rag db ≡ ok db'
      → Before db
      → After db'
  unfolding insert_rag
  insert_rag-Change limit rag db db' owner alive room e before =
      let (free, made) = guarded integrity_error e in
      let unused : any (λ r. r.id == rag.id) db.rag_sets ≡ false = ground arith in
      rw (← made) (
        added rag (ap user (sym owner)) alive (rw before at unused)
          (ap (λ (l : List RagSet). l ++ rag ∷ []) before))

  update_rag_row-Change :
      (rag_id : ℕ) (rag new : RagSet) (db db' : Db)
      → Repo.get_rag db rag_id user_id ≡ some rag
      → IsSameSet rag new
      → update_rag_row fold new db ≡ ok db'
      → Before db
      → After db'
  unfolding update_rag_row Repo.get_rag
  update_rag_row-Change rag_id rag new db db' found like e before =
      let (_, made) = guarded integrity_error e in
      rw (← made) (
        replaced user_id rag_id rag new refl (rw before at found) like
          (ap (map (λ (r : RagSet). if r.id == new.id then new else r)) before))

-- What leaves the table of sets alone.
kept-KeepsRows :
    (actor : Actor) (rows : List RagSet) → KeepsRows (λ db. Change actor rows db.rag_sets)
kept-KeepsRows actor rows = sets-KeepsRows (Change actor rows)

module _ {S I : Type 0} (env : Worker S I) (fold : Text → Text)
    (normalize : Text → Option Text) where
  delete_rag-Change :
      (rag_id user_id : ℕ) (w : World S I)
      → Change (user user_id) w.db.rag_sets (Api.delete_rag env rag_id user_id w).1.db.rag_sets
  unfolding Api.delete_rag soft_delete_rag Repo.get_rag
  delete_rag-Change rag_id user_id w =
      owned-keeps_at env (λ (t : World S I). Change (user user_id) w.db.rag_sets t.db.rag_sets)
        rag_id user_id _ w (same refl)
        (λ rag found. deleted user_id rag_id w.now rag refl found refl)

  -- A request makes at most one statement on the sets, and that on a set of its caller.
  pub handle-Change :
      (r : Request) (w : World S I)
      → Change (caller r) w.db.rag_sets (handle env fold normalize r w).db.rag_sets
  unfolding handle caller
  handle-Change (post_rag payload user_id) w =
      let rows = w.db.rag_sets in
      create_rag-keeps env fold user_id (Before fold user_id rows) (After fold user_id rows)
        (kept-KeepsRows (user user_id) rows) (weaken fold user_id rows)
        (insert_rag-Change fold user_id rows env.settings.rag_max_sets_per_owner) payload w refl
  handle-Change (post_from_bucket payload user_id) w =
      let rows = w.db.rag_sets in
      create_from_bucket-keeps env fold user_id (Before fold user_id rows) (After fold user_id rows)
        (kept-KeepsRows (user user_id) rows) (weaken fold user_id rows)
        (insert_rag-Change fold user_id rows env.settings.rag_max_sets_per_owner) payload w refl
  handle-Change (patch_rag rag_id payload user_id) w =
      let rows = w.db.rag_sets in
      update_rag-keeps env fold user_id (Before fold user_id rows) (After fold user_id rows)
        (weaken fold user_id rows) (update_rag_row-Change fold user_id rows) rag_id payload w refl
  handle-Change (put_rag_icon rag_id file user_id) w =
      let rows = w.db.rag_sets in
      put_icon-keeps env fold user_id (Before fold user_id rows) (After fold user_id rows)
        (weaken fold user_id rows) (update_rag_row-Change fold user_id rows) normalize rag_id file w
        refl
  handle-Change (remove_rag rag_id user_id) w = delete_rag-Change rag_id user_id w
  handle-Change (post_documents rag_id files user_id) w =
      upload_documents-Keeps env _ (kept-KeepsRows (user user_id) w.db.rag_sets) rag_id files
        user_id w (same refl)
  handle-Change (post_documents_from_bucket rag_id payload user_id) w =
      add_documents_from_bucket-Keeps env _ (kept-KeepsRows (user user_id) w.db.rag_sets) rag_id
        payload user_id w (same refl)
  handle-Change (remove_one_document rag_id document_id user_id) w =
      remove_document-Keeps env _ (kept-KeepsRows (user user_id) w.db.rag_sets) rag_id document_id
        user_id w (same refl)
  handle-Change (post_archive rag_id file user_id) w =
      import_archive-Keeps env _ (kept-KeepsRows (user user_id) w.db.rag_sets) rag_id file user_id w
        (same refl)
  handle-Change (post_staging_import rag_id prefix) w =
      import_from_staging-Keeps env _ (kept-KeepsRows operator w.db.rag_sets) rag_id prefix w
        (same refl)
