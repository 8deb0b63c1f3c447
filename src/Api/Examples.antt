-- ===== src/Api/Examples.antt =====
-- app/main.py: the theorems on the default ports.
use rag_ingestion_service.Prelude.{
  List, Text, [], arith, codes, nat_eq, option_eq, refl, text_eq, false, ◌∷◌, ◌≡◌,
}
use mathlib.Core.List.{Memᴰ}
use mathlib.Core.List.Memᴰ.{head, tail}
use rag_ingestion_service.Settings.{default_settings}
use rag_ingestion_service.Api.Routes.{
  get, literal, param, internal, rags, Route, matches, same_method, matches_path, public_app,
  internal_app, Listener, serve, run,
}
use rag_ingestion_service.Api.Routing.{run_unique, run-IsSplit}

abbrev listener : Listener
listener = record { host = codes "127.0.0.1"; port = 8012; routes = internal_app }

abbrev one_set : Route
one_set = record {
  method = get;
  path = literal (codes "v1") ∷ literal (codes "internal") ∷ literal (codes "rags") ∷ param ∷ [];
  router = internal;
  endpoint = codes "internal_rag";
}

listens : Memᴰ listener (run default_settings)
unfolding run serve nat_eq
listens = tail (head refl)

served : Memᴰ one_set listener.routes
unfolding internal_app rag_ingestion_service.Api.Routes.health_routes
    rag_ingestion_service.Api.Routes.embed_routes rag_ingestion_service.Api.Routes.internal_routes
served = tail (tail (head refl))

abbrev path : List Text
path = codes "v1" ∷ codes "internal" ∷ codes "rags" ∷ codes "7" ∷ []

run_unique_example : ◌≡◌ {A = Route} one_set one_set
unfolding same_method matches_path text_eq nat_eq
run_unique_example =
    run_unique default_settings listener one_set one_set get path listens served served refl refl

run-IsSplit_example :
    (listener.host ≡ default_settings.internal_host)
    × (listener.port ≡ default_settings.internal_port)
    × (default_settings.reload ≡ false)
run-IsSplit_example =
    run-IsSplit default_settings listener one_set (omega arith) listens served refl
