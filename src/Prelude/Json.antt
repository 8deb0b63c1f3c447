-- ===== src/Prelude/Json.antt =====
-- The values that `response.json()` returns, with Python's truth value, `dict.get` and iteration
-- over them. The only integers that the service reads are page numbers, taken as naturals.
use rag_ingestion_service.Prelude.{
  Bool, List, Option, Text, [], false, if◌then◌else◌, is_empty, map, nat_eq, none, not, option_eq,
  some, text_eq, true, ℕ, ◌==◌, ◌∷◌,
}
use rag_ingestion_service.Prelude.Result.{Result, ok, err}

mutual
  pub data Json : Type 0 where
    null : Json
    bool : Bool → Json
    int : ℕ → Json
    -- a number that is no integer
    float : Json
    str : Text → Json
    arr : Items → Json
    obj : Fields → Json

  pub data Items : Type 0 where
    nil : Items
    cons : Json → Items → Items

  pub data Fields : Type 0 where
    end : Fields
    field : Text → Json → Fields → Fields

unfoldable pub items : Items → List Json
items nil = []
items (cons x xs) = x ∷ items xs

unfoldable pub get_field : Text → Fields → Option Json
get_field key end = none
get_field key (field k v fs) = let rest = get_field key fs in if k == key then some v else rest

keys : Fields → List Json
keys end = []
keys (field k v fs) = str k ∷ keys fs

-- `bool(value)`, a missing value being `None`.
unfoldable pub is_truthy : Option Json → Bool
is_truthy none = false
is_truthy (some null) = false
is_truthy (some (bool b)) = b
is_truthy (some (int n)) = not (n == 0)
is_truthy (some float) = true
is_truthy (some (str t)) = not (is_empty t)
is_truthy (some (arr nil)) = false
is_truthy (some (arr (cons x xs))) = true
is_truthy (some (obj end)) = false
is_truthy (some (obj (field k v fs))) = true

-- `a or b` on two values that may be missing.
unfoldable pub or_else : Option Json → Option Json → Option Json
unfolding is_truthy
or_else a b = if is_truthy a then a else b

-- `AttributeError`, `TypeError` and `KeyError`
pub data Fault : Type 0 where
  no_attribute not_iterable missing_key : Fault

-- What `.get` finds on a value: an `AttributeError` on anything but a dict.
unfoldable pub as_dict : Option Json → Result Fault Fields
as_dict none = err no_attribute
as_dict (some (obj fs)) = ok fs
as_dict (some null) = err no_attribute
as_dict (some (bool b)) = err no_attribute
as_dict (some (int n)) = err no_attribute
as_dict (some float) = err no_attribute
as_dict (some (str t)) = err no_attribute
as_dict (some (arr xs)) = err no_attribute

-- `for x in value or ()`
unfoldable pub iterate : Option Json → Result Fault (List Json)
unfolding items is_truthy keys
iterate value = if is_truthy value then elements value else ok []
  where
    elements : Option Json → Result Fault (List Json)
    elements (some (arr xs)) = ok (items xs)
    elements (some (str t)) = ok (map (λ (c : ℕ). str (c ∷ [])) t)
    elements (some (obj fs)) = ok (keys fs)
    elements (some null) = err not_iterable
    elements (some (bool b)) = err not_iterable
    elements (some (int n)) = err not_iterable
    elements (some float) = err not_iterable
    elements none = err not_iterable
