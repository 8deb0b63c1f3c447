-- ===== src/Docling/Submit.antt =====
-- app/docling/client.py: the requests that submit a document, by the contents of a file and by its URL.
-- The answer of the service, raised if its status is an error, is an argument.
use rag_ingestion_service.Prelude.{
  List, Option, Text, [], codes, is_empty, none, some, nat_eq, option_eq, text_eq, ◌++◌, ◌∷◌,
  if◌then◌else◌, ◌==◌, slash,
}
use rag_ingestion_service.Prelude.Json.{
  Json, Fields, missing_key, str, arr, obj, nil, cons, end, field, get_field,
}
use rag_ingestion_service.Prelude.Dicts.{merge}
use rag_ingestion_service.Prelude.Paths.{path_name}
use rag_ingestion_service.Prelude.Result.{Result, ok, err, ◌>>=◌}
use rag_ingestion_service.Docling.Wait.{Failure, HttpError, http, fault}
use rag_ingestion_service.Docling.Options.{
  ConversionOptions, ChunkingOptions, conversion_form, conversion_json, chunking_form,
  chunking_json,
}

-- What httpx sends: a multipart form with one file, or a JSON body.
pub data Body : Type 0 where
  multipart : (filename payload content_type : Text) (form : Fields) → Body
  json_body : Fields → Body

pub record HttpRequest : Type 0 where
  pub url : Text
  pub headers : List (Text × Text)
  pub body : Body

-- `base_url.rstrip("/")`
unfoldable pub strip_slashes : Text → Text
strip_slashes [] = []
strip_slashes (c ∷ s) =
    let rest = strip_slashes s in
    if is_empty rest then (if c == slash then [] else c ∷ []) else c ∷ rest

-- `_headers`
unfoldable pub auth_headers : Option Text → List (Text × Text)
auth_headers none = []
auth_headers (some key) = if is_empty key then [] else (codes "X-Api-Key", key) ∷ []

module _ (base_url : Text) (api_key : Option Text) where
  unfoldable pub file_request : Text → Text → ConversionOptions → ChunkingOptions → HttpRequest
  unfolding strip_slashes auth_headers
  file_request filename payload conversion chunking = record {
    url = strip_slashes base_url ++ codes "/v1/chunk/hybrid/file/async";
    headers = auth_headers api_key;
    body =
        multipart filename payload (codes "application/octet-stream")
          (merge (conversion_form conversion) (chunking_form chunking));
  }

  unfoldable pub url_request : Text → ConversionOptions → ChunkingOptions → HttpRequest
  unfolding strip_slashes auth_headers
  url_request source conversion chunking = record {
    url = strip_slashes base_url ++ codes "/v1/chunk/hybrid/source/async";
    headers = auth_headers api_key;
    body = json_body (
        field (codes "sources")
          (arr (
            cons
              (obj
                (field (codes "kind") (str (codes "http")) (field (codes "url") (str source) end)))
              nil))
          (field (codes "convert_options") (obj (conversion_json conversion))
            (field (codes "chunking_options") (obj (chunking_json chunking)) end)));
  }

  module _ (post : HttpRequest → Result HttpError Fields) where
    -- `response.json()["task_id"]`, behind the post
    unfoldable pub task_of : Result HttpError Fields → Result Failure Json
    task_of (err e) = err (http e)
    task_of (ok answer) = elim (get_field (codes "task_id") answer) [
      | some task_id ↦ ok task_id
      | none ↦ err (fault missing_key)
    ]

    -- `DoclingFileClient._submit`; the file is read before the post, and may not be there.
    unfoldable pub submit_file :
        (Text → Result Failure Text)
        → Text
        → ConversionOptions
        → ChunkingOptions
        → Result Failure Json
    unfolding task_of
    submit_file read_bytes path conversion chunking = do
      payload ← read_bytes path
      task_of (post (file_request (path_name path) payload conversion chunking))

    -- `DoclingUrlClient._submit`
    unfoldable pub submit_url : Text → ConversionOptions → ChunkingOptions → Result Failure Json
    unfolding task_of
    submit_url source conversion chunking = task_of (post (url_request source conversion chunking))
