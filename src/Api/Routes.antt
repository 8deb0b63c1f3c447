-- ===== src/Api/Routes.antt =====
-- app/main.py and the routers of app/api: which request goes to which handler, on which port. A path is
-- the list of its segments, and FastAPI's own pages are left out.
use rag_ingestion_service.Prelude.{
  Bool, List, Text, [], codes, false, if◌then◌else◌, is_empty, nat_eq, not, option_eq, text_eq,
  true, ℕ, ◌&&◌, ◌++◌, ◌==◌, ◌∷◌,
}
use rag_ingestion_service.Settings.{Settings}

pub data Method : Type 0 where
  get post put patch delete : Method

pub data Segment : Type 0 where
  literal : Text → Segment
  param : Segment

-- The module of app/api that a route stands in.
pub data Router : Type 0 where
  health rags embed internal admin : Router

pub record Route : Type 0 where
  pub method : Method
  pub path : List Segment
  pub router : Router
  -- the name of the handler
  pub endpoint : Text

unfoldable pub same_method : Method → Method → Bool
same_method get get = true
same_method post post = true
same_method put put = true
same_method patch patch = true
same_method delete delete = true
same_method _ _ = false

unfoldable pub matches_path : List Segment → List Text → Bool
matches_path [] [] = true
matches_path [] (p ∷ ps) = false
matches_path (s ∷ ss) [] = false
matches_path (literal t ∷ ss) (p ∷ ps) = p == t && matches_path ss ps
matches_path (param ∷ ss) (p ∷ ps) = not (is_empty p) && matches_path ss ps

-- Starlette's reading of a route: a parameter takes one segment that is not empty.
abbrev pub matches : Method → List Text → Route → Bool
matches method path r = same_method r.method method && matches_path r.path path

-- A route of a router with a prefix.
abbrev route : Router → List Segment → Method → List Segment → Text → Route
route router prefix method path endpoint = record {
  method = method;
  path = prefix ++ path;
  router = router;
  endpoint = endpoint;
}

unfoldable pub health_routes : List Route
health_routes = route health [] get (literal (codes "health") ∷ []) (codes "health") ∷ []

unfoldable pub embed_routes : List Route
embed_routes = route embed [] post (literal (codes "embed") ∷ []) (codes "embed") ∷ []

abbrev pub platform : List Segment
platform = literal (codes "v1") ∷ literal (codes "platform") ∷ literal (codes "rags") ∷ []

abbrev documents : Segment
documents = literal (codes "documents")

abbrev imports : Segment
imports = literal (codes "imports")

abbrev from_bucket : Segment
from_bucket = literal (codes "from-bucket")

abbrev icon : Segment
icon = literal (codes "icon")

-- app/api/rags.py: its router, with the decorators of its handlers in their order.
unfoldable pub platform_routes : List Route
platform_routes =
    route rags platform post [] (codes "create_rag")
    ∷ route rags platform post (from_bucket ∷ []) (codes "create_from_bucket")
    ∷ route rags platform get [] (codes "list_rags")
    ∷ route rags platform get (param ∷ []) (codes "get_rag")
    ∷ route rags platform patch (param ∷ []) (codes "update_rag")
    ∷ route rags platform delete (param ∷ []) (codes "delete_rag")
    ∷ route rags platform put (param ∷ icon ∷ []) (codes "put_icon")
    ∷ route rags platform get (param ∷ icon ∷ []) (codes "get_icon")
    ∷ route rags platform post (param ∷ documents ∷ []) (codes "upload_documents")
    ∷ route rags platform post (param ∷ documents ∷ from_bucket ∷ [])
        (codes "add_documents_from_bucket")
    ∷ route rags platform get (param ∷ documents ∷ []) (codes "list_documents")
    ∷ route rags platform delete (param ∷ documents ∷ param ∷ []) (codes "delete_document")
    ∷ route rags platform post (param ∷ imports ∷ literal (codes "archive") ∷ [])
        (codes "import_archive")
    ∷ route rags platform get (param ∷ imports ∷ param ∷ []) (codes "get_batch")
    ∷ []

abbrev pub internal_prefix : List Segment
internal_prefix = literal (codes "v1") ∷ literal (codes "internal") ∷ []

-- app/api/internal.py: the same.
unfoldable pub internal_routes : List Route
internal_routes =
    route internal internal_prefix get (literal (codes "rags") ∷ param ∷ []) (codes "internal_rag")
    ∷ route internal internal_prefix post (documents ∷ literal (codes "lookup") ∷ [])
        (codes "lookup_documents")
    ∷ []

-- app/api/admin.py: the same.
unfoldable pub admin_routes : List Route
admin_routes =
    route admin (literal (codes "admin") ∷ []) post
      (literal (codes "rags") ∷ param ∷ imports ∷ literal (codes "s3") ∷ [])
      (codes "import_from_staging")
    ∷ route admin (literal (codes "admin") ∷ []) get (literal (codes "staging") ∷ [])
        (codes "list_staging")
    ∷ []

-- The routers that the platform does not see, unless they share its port.
abbrev pub service_routes : List Route
service_routes = embed_routes ++ internal_routes ++ admin_routes

-- `app`
unfoldable pub public_app : ℕ → List Route
public_app internal_port =
    health_routes ++ platform_routes ++ (if internal_port == 0 then service_routes else [])

-- `internal_app`
unfoldable pub internal_app : List Route
internal_app = health_routes ++ service_routes

-- A server of uvicorn.
pub record Listener : Type 0 where
  pub host : Text
  pub port : ℕ
  pub routes : List Route

-- `run` and `_serve`: what listens where.
unfoldable pub serve : Settings → List Listener
unfolding public_app internal_app
serve s =
    let public : Listener = record {
      host = s.host;
      port = s.port;
      routes = public_app s.internal_port;
    } in
    let private : Listener = record {
      host = s.internal_host;
      port = s.internal_port;
      routes = internal_app;
    } in
    if s.internal_port == 0 then public ∷ [] else public ∷ private ∷ []

unfoldable pub run : Settings → List Listener
unfolding serve
run s =
    let public : Listener = record {
      host = s.host;
      port = s.port;
      routes = public_app s.internal_port;
    } in
    if s.reload then public ∷ [] else serve s
