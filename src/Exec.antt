-- ===== src/Exec.antt =====
-- Code that changes a state and may raise. What was written before a raise stays written, so the
-- state comes back beside the exception too.
use rag_ingestion_service.Prelude.{Bool, true, false, if◌then◌else◌, Option, some, none, ◌≡◌, refl}
use rag_ingestion_service.Prelude.Result.{Result, ok, err}
use rag_ingestion_service.Errors.{Exception}

abbrev pub Exec : Type 0 → Type 0 → Type 0
Exec S A = S → Result Exception A × S

module _ {S A : Type 0} where
  abbrev pub pure : A → Exec S A
  pure a s = (ok a, s)

  abbrev pub raise : Exception → Exec S A
  raise e s = (err e, s)

  abbrev pub lift : Result Exception A → Exec S A
  lift r s = (r, s)

  abbrev pub gets : (S → A) → Exec S A
  gets f s = (ok (f s), s)

module _ {S : Type 0} where
  abbrev pub modify : (S → S) → Exec S (Unit {0})
  modify f s = (ok tt, f s)

module _ {S A B : Type 0} where
  abbrev pub continue : Result Exception A → (A → Exec S B) → Exec S B
  continue (err raised) rest s = (err raised, s)
  continue (ok a) rest s = rest a s

  infixl 5 ◌>>=◌ ◌>>◌
  abbrev pub ◌>>=◌ : Exec S A → (A → Exec S B) → Exec S B
  ◌>>=◌ first rest s = let (r, after) = first s in continue r rest after

  abbrev pub ◌>>◌ : Exec S A → Exec S B → Exec S B
  first >> second = first >>= λ _. second

-- What holds of every exception of the first part and of the end of the second holds of the end of
-- both.
module _ {S A B : Type 0} (P : Result Exception B → S → Type 0) where
  pub >>=_ind :
      (m : Exec S A) (f : A → Exec S B) (s : S)
      → ((e : Exception) (s' : S) → P (err e) s')
      → ((a : A) (s' : S) → P (f a s').0 (f a s').1)
      → P ((m >>= f) s).0 ((m >>= f) s).1
  >>=_ind m f s on_err on_ok = go (m s).0 (m s).1
    where
      go : (r : Result Exception A) (s' : S) → P (continue r f s').0 (continue r f s').1
      go (ok a) s' = on_ok a s'
      go (err e) s' = on_err e s'

-- A bind that returns has two parts that returned.
pub >>=_returned :
    {S A B : Type 0} (m : Exec S A) (f : A → Exec S B) (s : S) (b : B) (last : S)
    → (m >>= f) s ≡ (ok b, last)
    → (a : A) × (s' : S) × (m s ≡ (ok a, s')) × (f a s' ≡ (ok b, last))
>>=_returned {S} {A} {B} m f s b last = go (m s).0 (m s).1 refl
  where
    go :
        (r : Result Exception A) (s' : S)
        → m s ≡ (r, s')
        → continue r f s' ≡ (ok b, last)
        → (a : A) × (s'' : S) × (m s ≡ (ok a, s'')) × (f a s'' ≡ (ok b, last))
    go (ok a) s' e h = (a, s', e, h)
    go (err x) s' e h = cc

-- An operation keeps an invariant, whether it returns or raises.
abbrev pub Keeps : {S A : Type 0} → (S → Type 0) → Exec S A → Type 0
Keeps P m = (s : _) → P s → P (m s).1

module _ {S A B : Type 0} (P : S → Type 0) where
  pub >>=-Keeps :
      (m : Exec S A) (f : A → Exec S B) → Keeps P m → ((a : A) → Keeps P (f a)) → Keeps P (m >>= f)
  >>=-Keeps m f keep_m keep_f s h = go (m s).0 (m s).1 (keep_m s h)
    where
      go : (r : Result Exception A) (s' : S) → P s' → P (continue r f s').1
      go (ok a) s' h' = keep_f a s' h'
      go (err e) s' h' = h'

-- A branch keeps what both of its parts keep.
module _ {S A : Type 0} (P : S → Type 0) where
  pub if-Keeps : (b : Bool) (m n : Exec S A) → Keeps P m → Keeps P n → Keeps P (if b then m else n)
  if-Keeps true m n keep_m keep_n = keep_m
  if-Keeps false m n keep_m keep_n = keep_n

  pub elim-Keeps :
      {B : Type 0} (o : Option B) (m : Exec S A) (f : B → Exec S A)
      → Keeps P m
      → ((b : B) → Keeps P (f b))
      → Keeps P (elim o [ some b ↦ f b | none ↦ m ])
  elim-Keeps none m f keep_m keep_f = keep_m
  elim-Keeps (some b) m f keep_m keep_f = keep_f b

-- The same from one state on, where the first part is known to keep the invariant there.
pub >>=-keeps_at :
    {S A B : Type 0} (P : S → Type 0) (m : Exec S A) (f : A → Exec S B) (s : S)
    → P (m s).1
    → ((a : A) → Keeps P (f a))
    → P ((m >>= f) s).1
>>=-keeps_at {S} {A} {B} P m f s h keep_f = elim (m s).0 as (λ r. P (continue r f (m s).1).1) [
  | ok a ↦ keep_f a (m s).1 h
  | err e ↦ h
]

-- What holds of a raised exception and of the rest holds of both.
pub lift_ind :
    {S A B : Type 0} (P : Result Exception B → S → Type 0) (r : Result Exception A)
    (f : A → Exec S B) (s : S)
    → ((e : Exception) → P (err e) s)
    → ((a : A) → P (f a s).0 (f a s).1)
    → P (continue r f s).0 (continue r f s).1
lift_ind P (ok a) f s on_err on_ok = on_ok a
lift_ind P (err e) f s on_err on_ok = on_err e
