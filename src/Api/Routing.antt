-- ===== src/Api/Routing.antt =====
-- app/main.py: no route of the service hides another one, and the service routes stay on their port.
use rag_ingestion_service.Prelude.{
  inr, inl, ◌∙◌, sym, All, Bool, Bool-cases, List, Text, [], arith, false, if_ind, nat_eq, not,
  option_eq, refl, text_eq, true, ℕ, ◌&&◌, ◌==◌, ◌||◌, ◌∷◌, ◌≡◌, ◌≢◌, ◌⊎◌,
}
use mathlib.Core.List.{Memᴰ}
use mathlib.Core.List.Memᴰ.{head, tail}
use rag_ingestion_service.Settings.{Settings}
use rag_ingestion_service.Api.Routes.{
  Method, Segment, literal, param, Router, health, rags, embed, internal, admin, Route, same_method,
  matches_path, matches, health_routes, embed_routes, platform_routes, internal_routes,
  admin_routes, public_app, internal_app, Listener, serve, run,
}

-- No path fits both.
apart_paths : List Segment → List Segment → Bool
apart_paths [] [] = false
apart_paths [] (t ∷ ts) = true
apart_paths (s ∷ ss) [] = true
apart_paths (literal a ∷ ss) (literal b ∷ ts) = not (a == b) || apart_paths ss ts
apart_paths (literal a ∷ ss) (param ∷ ts) = apart_paths ss ts
apart_paths (param ∷ ss) (literal b ∷ ts) = apart_paths ss ts
apart_paths (param ∷ ss) (param ∷ ts) = apart_paths ss ts

apart : Route → Route → Bool
unfolding apart_paths
apart r q = not (same_method r.method q.method) || apart_paths r.path q.path

apart_from : Route → List Route → Bool
unfolding apart
apart_from r [] = true
apart_from r (q ∷ qs) = apart r q && apart_from r qs

all_apart : List Route → Bool
unfolding apart_from
all_apart [] = true
all_apart (r ∷ rs) = apart_from r rs && all_apart rs

paths_lem :
    (ss ts : List Segment) (path : List Text)
    → apart_paths ss ts ≡ true
    → matches_path ss path ≡ true
    → matches_path ts path ≡ false
unfolding apart_paths matches_path
paths_lem [] [] path e h = cc
paths_lem [] (t ∷ ts) [] e h = ground arith
paths_lem [] (t ∷ ts) (p ∷ ps) e h = cc
paths_lem (s ∷ ss) [] [] e h = ground arith
paths_lem (s ∷ ss) [] (p ∷ ps) e h = refl
paths_lem (s ∷ ss) (t ∷ ts) [] e h = cc
paths_lem (literal a ∷ ss) (literal b ∷ ts) (p ∷ ps) e h = ground (arith, paths_lem ss ts ps)
paths_lem (literal a ∷ ss) (param ∷ ts) (p ∷ ps) e h = ground (arith, paths_lem ss ts ps)
paths_lem (param ∷ ss) (literal b ∷ ts) (p ∷ ps) e h = ground (arith, paths_lem ss ts ps)
paths_lem (param ∷ ss) (param ∷ ts) (p ∷ ps) e h = ground (arith, paths_lem ss ts ps)

methods_lem :
    (a b m : Method) → same_method a b ≡ false → same_method a m ≡ true → same_method b m ≡ false
unfolding same_method
methods_lem a b m e h = ground arith

apart_lem :
    (method : Method) (path : List Text) (r q : Route)
    → apart r q ≡ true
    → matches method path q ≡ true
    → matches method path r ≡ false
unfolding apart
apart_lem method path r q e h =
    ground (arith, paths_lem r.path q.path path, methods_lem r.method q.method method)

apart_from_lem :
    (method : Method) (path : List Text) (r q : Route) (rs : List Route)
    → Memᴰ q rs
    → apart_from r rs ≡ true
    → matches method path q ≡ true
    → matches method path r ≡ false
unfolding apart_from
apart_from_lem method path r q [] m e h = elim m [ ]
apart_from_lem method path r q (x ∷ rs) (head same) e h =
    let at_x : apart r x ≡ true = ground arith in apart_lem method path r q (rw same at_x) h
apart_from_lem method path r q (x ∷ rs) (tail m) e h =
    apart_from_lem method path r q rs m (ground arith) h

-- Where no two routes share a path, one at most fits.
one_fits :
    (method : Method) (path : List Text) (r q : Route) (rs : List Route)
    → Memᴰ r rs
    → Memᴰ q rs
    → all_apart rs ≡ true
    → matches method path r ≡ true
    → matches method path q ≡ true
    → r ≡ q
unfolding all_apart
one_fits method path r q [] m m' e h h' = elim m [ ]
one_fits method path r q (x ∷ rs) (head same) (head same') e h h' = same ∙ sym same'
one_fits method path r q (x ∷ rs) (head same) (tail m') e h h' =
    let hidden = apart_from_lem method path x q rs m' (ground arith) h' in
    let fits : matches method path x ≡ true = rw (← same) h in absurd (cc)
one_fits method path r q (x ∷ rs) (tail m) (head same') e h h' =
    let hidden = apart_from_lem method path x r rs m (ground arith) h in
    let fits : matches method path x ≡ true = rw (← same') h' in absurd (cc)
one_fits method path r q (x ∷ rs) (tail m) (tail m') e h h' =
    one_fits method path r q rs m m' (ground arith) h h'

public-apart : (internal_port : ℕ) → all_apart (public_app internal_port) ≡ true
unfolding all_apart public_app health_routes platform_routes embed_routes internal_routes
    admin_routes text_eq nat_eq same_method
public-apart internal_port = elim (Bool-cases (internal_port == 0)) [
  | inl e ↦ rw e refl
  | inr e ↦ rw e refl
]

internal-apart : all_apart internal_app ≡ true
unfolding all_apart internal_app health_routes embed_routes internal_routes admin_routes text_eq
    nat_eq same_method
internal-apart = refl

All-Mem : {A : Type 0} (P : A → Type 0) (a : A) (xs : List A) → Memᴰ a xs → All P xs → P a
All-Mem P a [] m h = elim m [ ]
All-Mem P a (x ∷ xs) (head e) (h, hs) = rw e h
All-Mem P a (x ∷ xs) (tail m) (h, hs) = All-Mem P a xs m hs

-- What holds of both applications, where they are served, holds of every listener.
listeners :
    (P : Listener → Type 0) (s : Settings)
    → P (record { host = s.host; port = s.port; routes = public_app s.internal_port })
    → (s.reload ≡ false
        → (s.internal_port == 0) ≡ false
        → P (record { host = s.internal_host; port = s.internal_port; routes = internal_app }))
    → All P (run s)
unfolding run serve
listeners P s public private =
    if_ind (All P) s.reload (λ _. (public, tt))
      (λ served.
        if_ind (All P) (s.internal_port == 0) (λ _. (public, tt))
          (λ split. (public, (private served split, tt))))

-- No request fits two routes of a listener: none hides another one, in whichever order the routers are
-- included and however the ports are set.
pub run_unique :
    (s : Settings) (l : Listener) (r q : Route) (method : Method) (path : List Text)
    → Memᴰ l (run s)
    → Memᴰ r l.routes
    → Memᴰ q l.routes
    → matches method path r ≡ true
    → matches method path q ≡ true
    → r ≡ q
run_unique s l r q method path listens served served' =
    one_fits method path r q l.routes served served' (
      All-Mem (λ (x : Listener). all_apart x.routes ≡ true) l (run s) listens
        (listeners (λ x. all_apart x.routes ≡ true) s (public-apart s.internal_port)
          (λ _ _. internal-apart)))

-- The routers that are for other services and the operator.
abbrev pub is_service : Router → Bool
is_service health = false
is_service rags = false
is_service embed = true
is_service internal = true
is_service admin = true

no_service : List Route → Bool
no_service [] = true
no_service (r ∷ rs) = not (is_service r.router) && no_service rs

no_service-Mem :
    (r : Route) (rs : List Route) → Memᴰ r rs → no_service rs ≡ true → is_service r.router ≡ false
unfolding no_service
no_service-Mem r [] m h = elim m [ ]
no_service-Mem r (x ∷ rs) (head e) h = rw e (ground arith)
no_service-Mem r (x ∷ rs) (tail m) h = no_service-Mem r rs m (ground arith)

no_service-public_app :
    (internal_port : ℕ)
    → (internal_port == 0) ≡ false
    → no_service (public_app internal_port) ≡ true
unfolding no_service public_app health_routes platform_routes
no_service-public_app internal_port split = rw split refl

-- With a port of their own, the routes for other services and the operator are served on that port
-- alone, and only where the service does not run with `reload`; then they are not served at all.
pub run-IsSplit :
    (s : Settings) (l : Listener) (r : Route)
    → s.internal_port ≢ 0
    → Memᴰ l (run s)
    → Memᴰ r l.routes
    → is_service r.router ≡ true
    → (l.host ≡ s.internal_host) × (l.port ≡ s.internal_port) × (s.reload ≡ false)
run-IsSplit s l r own_port listens served is_one =
    let apart_ports : (s.internal_port == 0) ≡ false = ground arith in
    let Apart : Listener → Type 0 = λ x.
      (no_service x.routes ≡ true)
      ⊎ ((x.host ≡ s.internal_host) × (x.port ≡ s.internal_port) × (s.reload ≡ false)) in
    let all_are =
      listeners Apart s (inl (no_service-public_app s.internal_port apart_ports))
        (λ once _. inr (refl, refl, once)) in
    elim (All-Mem Apart l (run s) listens all_are) [
      | inl none_of_them ↦
          let not_one = no_service-Mem r l.routes served none_of_them in absurd (cc)
      | inr own ↦ own
    ]
