-- ===== src/Api/Responses.antt =====
-- app/main.py: `_error_body` and the handlers of exceptions.
use rag_ingestion_service.Prelude.{
  Bool, List, Option, Text, [], codes, contains, dot, false, if◌then◌else◌, is_empty, map, nat_eq,
  none, not, option_eq, some, text_eq, ℕ, ◌==◌, ◌∷◌,
}
use rag_ingestion_service.Prelude.Filter.{filter}
use rag_ingestion_service.Prelude.Decimal.{decimal}
use rag_ingestion_service.Prelude.Paths.{join}
use rag_ingestion_service.Errors.{Exception, Detail, http_exception}

pub record ErrorBody : Type 0 where
  pub message : Text
  pub kind : Text
  pub param : Option Text

pub record JsonResponse : Type 0 where
  pub status_code : ℕ
  pub content : ErrorBody

abbrev error_types : List (ℕ × Text)
error_types =
    (400, codes "invalid_request_error")
    ∷ (401, codes "authentication_error")
    ∷ (404, codes "not_found_error")
    ∷ (409, codes "invalid_request_error")
    ∷ (413, codes "invalid_request_error")
    ∷ (415, codes "invalid_request_error")
    ∷ []

-- `types.get(status_code, "server_error")`
abbrev type_of : ℕ → List (ℕ × Text) → Text
type_of status_code [] = codes "server_error"
type_of status_code ((code, kind) ∷ types) =
    if code == status_code then kind else type_of status_code types

unfoldable pub error_body : ℕ → Text → Option Text → ErrorBody
error_body status_code message param = record {
  message = message;
  kind = type_of status_code error_types;
  param = param;
}

-- A part of the place of a validation error: a name, or the number of an item.
pub data LocPart : Type 0 where
  name : Text → LocPart
  item : ℕ → LocPart

abbrev pub loc_text : LocPart → Text
loc_text (name t) = t
loc_text (item n) = decimal n

abbrev request_parts : List Text
request_parts = codes "body" ∷ codes "query" ∷ codes "path" ∷ codes "header" ∷ []

abbrev is_request_part : LocPart → Bool
is_request_part (name t) = contains request_parts t
is_request_part (item n) = false

-- `".".join(loc) or None`
unfoldable pub param_of : List LocPart → Option Text
param_of loc =
    let param = join dot (map loc_text (filter (λ part. not (is_request_part part)) loc)) in
    if is_empty param then none else some param

pub record ValidationError : Type 0 where
  pub loc : List LocPart
  pub msg : Text

-- `_validation_error`; without an error in the list the message is a constant text.
unfoldable pub validation_error : Text → List ValidationError → JsonResponse
unfolding error_body param_of
validation_error default_message [] = record {
  status_code = 400;
  content = error_body 400 default_message (param_of []);
}
validation_error default_message (first ∷ _) = record {
  status_code = 400;
  content = error_body 400 first.msg (param_of first.loc);
}

-- `_http_error` and `_unhandled_error`: `text` is `str(exc.detail)`, and `type_name` the text of
-- an answer that names the type of an exception and nothing else of it.
module _ (text : Detail → Text) (type_name : Exception → Text) where
  unfoldable pub error_response : Exception → JsonResponse
  unfolding error_body
  error_response (http_exception status_code detail) = record {
    status_code = status_code;
    content = error_body status_code (text detail) none;
  }
  error_response e = record { status_code = 500; content = error_body 500 (type_name e) none }
