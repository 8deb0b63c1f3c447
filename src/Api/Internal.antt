-- ===== src/Api/Internal.antt =====
-- app/api/internal.py, and `current_user` of app/deps.py.
use rag_ingestion_service.Prelude.{
  List, Option, Text, if◌then◌else◌, is_empty, map, nat_eq, none, option_eq, some, text_eq, ℕ,
}
use rag_ingestion_service.Prelude.Result.{Result, ok, err}
use rag_ingestion_service.Errors.{Exception, http_exception, user_id_required, user_id_not_uuid}
use rag_ingestion_service.Exec.{Exec, pure, gets, ◌>>=◌}
use rag_ingestion_service.Models.{Document}
use rag_ingestion_service.Repo.{RagStatus, status_of, counts_for, documents_by_ids}
use rag_ingestion_service.World.{World}
use rag_ingestion_service.Jobs.{Worker}
use rag_ingestion_service.Api.{owned}

-- `uuid.UUID(…)` is given, `none` where it raises ValueError.
unfoldable pub current_user : (Text → Option ℕ) → Option Text → Result Exception ℕ
current_user uuid none = err (http_exception 401 user_id_required)
current_user uuid (some x_user_id) =
    if is_empty x_user_id
    then err (http_exception 401 user_id_required)
    else elim (uuid x_user_id) [
      | some user_id ↦ ok user_id
      | none ↦ err (http_exception 401 user_id_not_uuid)
    ]

pub record InternalRagOut : Type 0 where
  pub id : ℕ
  pub name : Text
  pub status : RagStatus
  pub prompt : Option Text
  pub temperature : ℕ
  pub top_k : ℕ
  pub score_threshold : ℕ

pub record DocumentEntry : Type 0 where
  pub document_id : ℕ
  pub filename : Text
  pub rag_id : ℕ

abbrev pub to_entry : Document → DocumentEntry
to_entry document = record {
  document_id = document.id;
  filename = document.filename;
  rag_id = document.rag_id;
}

module _ {S I : Type 0} (env : Worker S I) where
  -- The same query and the same answer 404 as `_owned` of the platform API.
  unfoldable pub internal_rag : ℕ → ℕ → Exec (World S I) InternalRagOut
  internal_rag rag_id user_id = do
    rag ← owned env rag_id user_id
    counts ← gets (λ (w : World S I). counts_for w.db rag_id)
    pure (record {
      id = rag.id;
      name = rag.name;
      status = status_of counts;
      prompt = rag.prompt;
      temperature = rag.temperature;
      top_k = rag.top_k;
      score_threshold = rag.score_threshold;
    })

  unfoldable pub lookup_documents : List ℕ → ℕ → Exec (World S I) (List DocumentEntry)
  lookup_documents document_ids user_id =
      gets (λ (w : World S I). map to_entry (documents_by_ids w.db document_ids user_id))
