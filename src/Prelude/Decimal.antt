-- ===== src/Prelude/Decimal.antt =====
-- `str(n)` for a natural number: its decimal digits, and that they determine the number.
use mathlib.Core.List.{foldl-append, [], ◌∷◌, ◌++◌, foldl}
use rag_ingestion_service.Prelude.Tests.{ltb, if◌then◌else◌}
use rag_ingestion_service.Prelude.Strings.{Text, slash}
use rag_ingestion_service.Prelude.Equality.{contains, contains-append, nat_eq}
use mathlib.Core.Bool.{false}
use Prim.Native.Nat.{ℕ, zero, suc, ◌+◌, ◌-◌, ◌*◌, ◌/◌, ◌%◌, ◌<◌}
use mathlib.Core.Path.{◌≡◌, refl, sym, ap, ◌∙◌}
use native.Mathlib.Omega.{arith}

-- `fuel` bounds the number of digits.
digits : ℕ → ℕ → Text
digits zero n = []
digits (suc fuel) n =
    let front = digits fuel (n / 10) in
    if ltb n 10 then (b'0' + n) ∷ [] else front ++ (b'0' + n % 10) ∷ []

unfoldable pub decimal : ℕ → Text
unfolding digits
decimal n = digits (suc n) n

add_digit : ℕ → ℕ → ℕ
add_digit acc c = acc * 10 + (c - b'0')

value : Text → ℕ
value = foldl add_digit 0

value-digits : (fuel n : ℕ) → n < fuel → value (digits fuel n) ≡ n
unfolding value digits add_digit
value-digits zero n h = elim h [ ]
value-digits (suc fuel) n h = ground (
  arith,
  value-digits fuel (n / 10),
  foldl-append add_digit 0 (digits fuel (n / 10)) ((b'0' + n % 10) ∷ []),
)

-- Two numbers with the same digits are equal.
pub decimal_injective : (m n : ℕ) → decimal m ≡ decimal n → m ≡ n
unfolding decimal
decimal_injective m n e =
    sym (value-digits (suc m) m (omega arith)) ∙ ap value e ∙ value-digits (suc n) n (omega arith)

digits-LacksSlash : (fuel n : ℕ) → contains (digits fuel n) slash ≡ false
unfolding digits
digits-LacksSlash zero n = refl
digits-LacksSlash (suc fuel) n = ground (
  arith,
  digits-LacksSlash fuel (n / 10),
  contains-append (digits fuel (n / 10)) ((b'0' + n % 10) ∷ []) slash,
)

-- A decimal numeral holds no slash.
pub decimal-LacksSlash : (n : ℕ) → contains (decimal n) slash ≡ false
unfolding decimal
decimal-LacksSlash n = digits-LacksSlash (suc n) n
