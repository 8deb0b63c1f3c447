-- ===== src/Prelude/Strings.antt =====
-- Python's `str` as a list of code points, and the methods that the service calls.
use Prim.Native.Nat.{ℕ, ◌+◌}
use Prim.Native.Char.{code}
use Prim.Native.String.{String}
use mathlib.Core.Path.{◌≡◌, refl}
use mathlib.Core.Bool.{Bool, true, false, ◌&&◌, ◌||◌, not}
use mathlib.Core.List.{List, [], ◌∷◌, map}
use native.Mathlib.Omega.{arith}
use rag_ingestion_service.Prelude.Tests.{leb, if◌then◌else◌}
use rag_ingestion_service.Prelude.Equality.{◌==◌, contains, nat_eq, text_eq}

abbrev pub Text : Type 0
Text = List ℕ

-- A literal's code points. `String` has its own `[]` and `∷`.
abbrev pub codes : String → Text
codes String.[] = []
codes (String.◌∷◌ c s) = code c ∷ codes s

abbrev pub slash : ℕ
slash = b'/'

abbrev pub dot : ℕ
dot = b'.'

-- `str.lower`, on the letters of ASCII, Latin-1 and Cyrillic.
unfoldable pub lower_char : ℕ → ℕ
lower_char c =
    if leb 65 c && leb c 90
    then c + 32
    else if leb 0xC0 c && leb c 0xDE && not (c == 0xD7)
    then c + 32
    else if leb 0x410 c && leb c 0x42F
    then c + 32
    else if leb 0x400 c && leb c 0x40F
    then c + 80
    else c

unfoldable pub lower : Text → Text
unfolding lower_char
lower = map lower_char

-- `s.rsplit(sep, 1)[-1]`: what stands behind the last `sep`, or all of `s`.
unfoldable pub after_last : ℕ → Text → Text
after_last sep [] = []
after_last sep (c ∷ s) = if contains s sep then after_last sep s else if c == sep then s else c ∷ s

unfoldable pub ends_with : Text → Text → Bool
ends_with s t = s == t || (elim s [ [] ↦ false | c ∷ (r → ih) ↦ ih ])

abbrev pub is_empty {ℓ} : {A : Type ℓ} → List A → Bool
is_empty [] = true
is_empty (x ∷ xs) = false

-- What stands behind the last separator holds none.
pub contains-after_last : (sep : ℕ) (s : Text) → contains (after_last sep s) sep ≡ false
unfolding after_last
contains-after_last sep [] = refl
contains-after_last sep (c ∷ s) = ground (arith, contains-after_last sep s)
