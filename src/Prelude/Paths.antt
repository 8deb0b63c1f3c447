-- ===== src/Prelude/Paths.antt =====
-- The parts of Python's posixpath and pathlib that app/archive.py calls, over code points.
use mathlib.Core.List.{append-nil, reverse, tail, List, [], ◌∷◌, ◌++◌, foldl}
use Prim.Native.Nat.{ℕ}
use mathlib.Core.Path.{◌≡◌, refl}
use mathlib.Core.Bool.{Bool, false, ◌&&◌, ◌||◌, not}
use mathlib.Core.Logic.{inl, inr}
use mathlib.Core.Option.{Option, none, some}
use native.Mathlib.Omega.{arith}
use rag_ingestion_service.Prelude.Tests.{ltb, Option-cases, if◌then◌else◌}
use rag_ingestion_service.Prelude.Lists.{length, All}
use rag_ingestion_service.Prelude.Equality.{◌==◌, contains, nat_eq, text_eq}
use rag_ingestion_service.Prelude.Filter.{filter}
use rag_ingestion_service.Prelude.Strings.{Text, codes, slash, dot, is_empty}

abbrev to_first : ℕ → List Text → List Text
to_first c [] = (c ∷ []) ∷ []
to_first c (p ∷ ps) = (c ∷ p) ∷ ps

-- `s.split(sep)`
unfoldable pub split : ℕ → Text → List Text
split sep [] = [] ∷ []
split sep (c ∷ s) = let rest = split sep s in if c == sep then [] ∷ rest else to_first c rest

-- `sep.join(parts)`
unfoldable pub join : ℕ → List Text → Text
join sep [] = []
join sep (p ∷ []) = p
join sep (p ∷ q ∷ ps) = p ++ (sep ∷ join sep (q ∷ ps))

-- One slash, or two where the path begins with exactly two.
initial_slashes : Text → Text
initial_slashes [] = []
initial_slashes (a ∷ []) = if a == slash then slash ∷ [] else []
initial_slashes (a ∷ b ∷ []) =
    if a == slash then (if b == slash then slash ∷ slash ∷ [] else slash ∷ []) else []
initial_slashes (a ∷ b ∷ c ∷ s) =
    if a == slash
    then (if b == slash && not (c == slash) then slash ∷ slash ∷ [] else slash ∷ [])
    else []

top_is : List Text → Text → Bool
top_is [] t = false
top_is (c ∷ cs) t = c == t

-- The body of the loop of `posixpath.normpath`; the components so far are kept last first.
norm_step : Bool → List Text → Text → List Text
unfolding top_is
norm_step rooted new_comps comp =
    if comp == [] || comp == codes "."
    then new_comps
    else if not (comp == codes "..")
        || (not rooted && is_empty new_comps)
        || top_is new_comps (codes "..")
    then comp ∷ new_comps
    else tail new_comps

-- `posixpath.normpath`
unfoldable pub normpath : Text → Text
unfolding norm_step initial_slashes split join
normpath path =
    let slashes = initial_slashes path in
    let comps = foldl (norm_step (not (is_empty slashes))) [] (split slash path) in
    let result = slashes ++ join slash (reverse comps) in
    if is_empty result then codes "." else result

last_or_empty : List Text → Text
last_or_empty [] = []
last_or_empty (p ∷ []) = p
last_or_empty (p ∷ q ∷ ps) = last_or_empty (q ∷ ps)

-- `PurePosixPath(path).name`
unfoldable pub path_name : Text → Text
unfolding last_or_empty split filter
path_name path =
    last_or_empty (filter (λ p. not (p == []) && not (p == codes ".")) (split slash path))

-- `(s[:i], s[i:])` for `i = s.rfind(sep)`, if there is such an `i`.
unfoldable pub cut_last : ℕ → Text → Option (Text × Text)
cut_last sep [] = none
cut_last sep (c ∷ s) = elim (cut_last sep s) [
  | some (front, back) ↦ some (c ∷ front, back)
  | none ↦ if c == sep then some ([], c ∷ s) else none
]

-- `0 < i < len(name) - 1`, in terms of the parts that `i` cuts.
stem_and_suffix : Text → Text × Text
unfolding cut_last
stem_and_suffix name = elim (cut_last dot name) [
  | none ↦ (name, [])
  | some (front, back) ↦
      if not (is_empty front) && ltb 1 (length back) then (front, back) else (name, [])
]

-- `PurePosixPath(path).stem` and `PurePosixPath(path).suffix`
unfoldable pub path_stem : Text → Text
unfolding stem_and_suffix path_name
path_stem path = (stem_and_suffix (path_name path)).0

unfoldable pub path_suffix : Text → Text
unfolding stem_and_suffix path_name
path_suffix path = (stem_and_suffix (path_name path)).1

abbrev pub LacksSlash : Text → Type 0
LacksSlash s = contains s slash ≡ false

split-LacksSlash : (s : Text) → All LacksSlash (split slash s)
unfolding split
split-LacksSlash [] = (refl, tt)
split-LacksSlash (c ∷ s) = first c (split slash s) (split-LacksSlash s)
  where
    first :
        (c : ℕ) (ps : List Text)
        → All LacksSlash ps
        → All LacksSlash (if c == slash then [] ∷ ps else to_first c ps)
    first c [] h = ground arith
    first c (p ∷ ps) h = ground arith

last_or_empty-LacksSlash : (ps : List Text) → All LacksSlash ps → LacksSlash (last_or_empty ps)
unfolding last_or_empty
last_or_empty-LacksSlash [] h = refl
last_or_empty-LacksSlash (p ∷ []) h = h.0
last_or_empty-LacksSlash (p ∷ q ∷ ps) h = last_or_empty-LacksSlash (q ∷ ps) h.1

All-filter_of {ℓ} :
    {A : Type 0} (P : A → Type ℓ) (p : A → Bool) (xs : List A) → All P xs → All P (filter p xs)
unfolding filter
All-filter_of P p [] h = tt
All-filter_of P p (x ∷ xs) (px, h) = ground (arith, All-filter_of P p xs h)

-- The name of a path is one component.
pub path_name-LacksSlash : (path : Text) → LacksSlash (path_name path)
unfolding path_name
path_name-LacksSlash path = last_or_empty-LacksSlash _ (
    All-filter_of LacksSlash (λ p. not (p == []) && not (p == codes ".")) _ (split-LacksSlash path))

cut_last-append :
    (sep : ℕ) (s front back : Text) → cut_last sep s ≡ some (front, back) → front ++ back ≡ s
unfolding cut_last
cut_last-append sep [] front back h = cc
cut_last-append sep (c ∷ s) front back h = elim (Option-cases (cut_last sep s)) [
  | inl e ↦ ground arith
  | inr (p, e) ↦ ground (arith, cut_last-append sep s p.0 p.1)
]

-- Stem and suffix make up the name.
pub path_stem-append-path_suffix :
    (path : Text) → path_stem path ++ path_suffix path ≡ path_name path
unfolding path_stem path_suffix
path_stem-append-path_suffix path = parts (path_name path)
  where
    parts : (name : Text) → (stem_and_suffix name).0 ++ (stem_and_suffix name).1 ≡ name
    parts name = elim (Option-cases (cut_last dot name)) [
      | inl e ↦ rw (e, stem_and_suffix) (append-nil name)
      | inr (p, e) ↦ ground (arith, append-nil name, cut_last-append dot name p.0 p.1)
    ]

-- A text with no separator is its own only part.
pub split_one : (s : Text) → LacksSlash s → split slash s ≡ s ∷ []
unfolding split
split_one [] h = refl
split_one (c ∷ s) h = ground (arith, split_one s)
