-- ===== src/Prelude/Dicts.antt =====
-- Python's dicts as the fields of a JSON object: assignment to a key, `{**a, **b}`, and when two of
-- them hold the same values up to a rendering.
use mathlib.Core.Option.{Option, none, some, map}
use mathlib.Core.Path.{refl, ◌≡◌, sym}
use mathlib.Core.Bool.{Bool, true, false}
use mathlib.Core.Logic.{◌≢◌}
use mathlib.Core.List.{List, [], ◌∷◌}
use native.Mathlib.Omega.{arith}
use rag_ingestion_service.Prelude.Tests.{if◌then◌else◌}
use rag_ingestion_service.Prelude.Equality.{◌==◌, nat_eq, text_eq}
use rag_ingestion_service.Prelude.Strings.{Text, is_empty}
use rag_ingestion_service.Prelude.Json.{Json, Fields, Items, str, end, field, nil, cons, get_field}

-- `fields[key] = value`
unfoldable pub set_field : Text → Json → Fields → Fields
set_field key v end = field key v end
set_field key v (field k u fs) =
    let rest = set_field key v fs in if k == key then field k v fs else field k u rest

-- `if value: fields[key] = value`, of a value that is a string or `None`
unfoldable pub set_if : Text → Option Text → Fields → Fields
unfolding set_field
set_if key none fs = fs
set_if key (some t) fs = if is_empty t then fs else set_field key (str t) fs

-- `{**first, **second}`
unfoldable pub merge : Fields → Fields → Fields
unfolding set_field
merge first end = first
merge first (field k v fs) = merge (set_field k v first) fs

unfoldable pub strings : List Text → Items
strings [] = nil
strings (t ∷ ts) = cons (str t) (strings ts)

pub get-set_field :
    (key k : Text) (v : Json) (fs : Fields)
    → get_field key (set_field k v fs) ≡ (if key == k then some v else get_field key fs)
unfolding get_field set_field
get-set_field key k v end = ground arith
get-set_field key k v (field k' u fs) = ground (arith, get-set_field key k v fs)

-- The one has, under renamed keys, what the other has, under the rendering of values.
abbrev pub Renders : (Text → Text) → (Json → Json) → Fields → Fields → Type 0
Renders rename f fs gs = (key : Text) → get_field (rename key) fs ≡ map f (get_field key gs)

module _ (rename : Text → Text) (f : Json → Json)
    (one_to_one : (k l : Text) → (rename k == rename l) ≡ (k == l)) where
  pub set_field-Renders :
      (k : Text) (v v' : Json) (fs gs : Fields)
      → v ≡ f v'
      → Renders rename f fs gs
      → Renders rename f (set_field (rename k) v fs) (set_field k v' gs)
  set_field-Renders k v v' fs gs e same key = ground (
    arith,
    one_to_one key k,
    get-set_field (rename key) (rename k) v fs,
    get-set_field key k v' gs,
    same key,
  )

  if-Renders :
      (b : Bool) (fs fs' gs gs' : Fields)
      → Renders rename f fs gs
      → Renders rename f fs' gs'
      → Renders rename f (if b then fs else fs') (if b then gs else gs')
  if-Renders true fs fs' gs gs' h h' = h
  if-Renders false fs fs' gs gs' h h' = h'

  pub set_if-Renders :
      (k : Text) (o : Option Text) (fs gs : Fields)
      → ((t : Text) → f (str t) ≡ str t)
      → Renders rename f fs gs
      → Renders rename f (set_if (rename k) o fs) (set_if k o gs)
  unfolding set_if
  set_if-Renders k none fs gs plain same = same
  set_if-Renders k (some t) fs gs plain same =
      if-Renders (is_empty t) fs (set_field (rename k) (str t) fs) gs (set_field k (str t) gs) same
        (set_field-Renders k (str t) (str t) fs gs (sym (plain t)) same)

-- An assignment to another key changes nothing at a key.
pub get-set_ne :
    (key k : Text) (v : Json) (fs : Fields)
    → (key == k) ≡ false
    → get_field key (set_field k v fs) ≡ get_field key fs
get-set_ne key k v fs differs = ground (arith, get-set_field key k v fs)

pub get-set_if_ne :
    (key k : Text) (o : Option Text) (fs : Fields)
    → (key == k) ≡ false
    → get_field key (set_if k o fs) ≡ get_field key fs
unfolding set_if
get-set_if_ne key k none fs differs = refl
get-set_if_ne key k (some t) fs differs = ground (arith, get-set_field key k (str t) fs)

-- Two assignments to different keys can change places.
pub get-swapped :
    (key k l : Text) (v u : Json) (fs : Fields)
    → k ≢ l
    → get_field key (set_field k v (set_field l u fs))
      ≡ get_field key (set_field l u (set_field k v fs))
get-swapped key k l v u fs differ = ground (
  arith,
  get-set_field key k v (set_field l u fs),
  get-set_field key l u fs,
  get-set_field key l u (set_field k v fs),
  get-set_field key k v fs,
)
