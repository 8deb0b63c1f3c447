-- ===== src/Docling/Wait.antt =====
-- app/docling/client.py: the polling loop and the translation of its errors. The answers of the
-- service and the readings of the clock, one for each round, are arguments.
use rag_ingestion_service.Prelude.{
  ◌∷◌, All, [], Bool, Bool-cases, List, Option, Text, arith, codes, false, if◌then◌else◌, inl, inr,
  leb, nat_eq, none, option_eq, some, suc, text_eq, true, zero, ℕ, ◌+◌, ◌<◌, ◌==◌, ◌≡◌, ◌≢◌, ◌≤◌,
}
use rag_ingestion_service.Prelude.Json.{Json, Fields, Fault, str, get_field}
use rag_ingestion_service.Prelude.Result.{Result, ok, err, ◌>>=◌, ◌>>◌}
use rag_ingestion_service.Docling.{parse_chunks}
use rag_ingestion_service.Docling.Chunk.{DoclingChunk}

-- httpx's HTTPStatusError and its other errors.
pub data HttpError : Type 0 where
  status_error : ℕ → HttpError
  transport_error : HttpError

pub data DoclingError : Type 0 where
  task_failed timed_out network_error : DoclingError
  bad_status : ℕ → DoclingError

pub data Failure : Type 0 where
  http : HttpError → Failure
  docling : DoclingError → Failure
  fault : Fault → Failure

abbrev is_text : Option Json → Text → Bool
is_text (some (str t)) u = t == u
is_text _ u = false

abbrev pub has_status : Fields → Text → Bool
has_status payload = is_text (get_field (codes "task_status") payload)

module _ (answers : ℕ → Result HttpError Fields) (clock : ℕ → ℕ) (deadline : ℕ) where
  -- The loop of `_wait` from round `k` on; `none` means that the fuel ran out.
  unfoldable pub wait : ℕ → ℕ → Option (Result Failure (Unit {0}))
  wait zero k = none
  wait (suc fuel) k =
      let next = wait fuel (k + 1) in
      elim (answers k) [
        | err e ↦ some (err (http e))
        | ok payload ↦
            if has_status payload (codes "success")
            then some (ok tt)
            else if has_status payload (codes "failure")
            then some (err (docling task_failed))
            else if leb deadline (clock k)
            then some (err (docling timed_out))
            else next
      ]

  abbrev pub succeeded : ℕ → Bool
  succeeded k = elim (answers k) [
    | ok payload ↦ has_status payload (codes "success")
    | err _ ↦ false
  ]

  -- The loop ends: where each sleep moves the clock on, it makes at most one round more than the
  -- clock units between its first reading and the deadline.
  pub wait-ne-none :
      (fuel k : ℕ)
      → ((i : ℕ) → clock i < clock (i + 1))
      → deadline ≤ clock k + fuel
      → wait (suc fuel) k ≢ none
  unfolding wait
  wait-ne-none zero k moves h = ground arith
  wait-ne-none (suc fuel) k moves h = ground (arith, moves k, wait-ne-none fuel (k + 1) moves)

  -- The numbers of `m` rounds from `k` on.
  abbrev pub rounds : ℕ → ℕ → List ℕ
  rounds k zero = []
  rounds k (suc m) = k ∷ rounds (k + 1) m

  -- The loop ends without an error only at a round whose answer says so, before which no answer
  -- did.
  pub wait_success :
      (fuel k : ℕ)
      → wait fuel k ≡ some (ok tt)
      → (m : ℕ) × (succeeded (k + m) ≡ true) × All (λ i. succeeded i ≡ false) (rounds k m)
  unfolding wait
  wait_success zero k h = cc
  wait_success (suc fuel) k h = elim (Bool-cases (succeeded k)) [
    | inl now ↦ let here : k + 0 ≡ k = omega arith in (0, rw here now, tt)
    | inr later ↦
        let (m, done, before) = wait_success fuel (k + 1) (ground arith) in
        let shift : k + suc m ≡ k + 1 + m = omega arith in (suc m, rw shift done, (later, before))
  ]

-- The `except` clauses of `chunk`.
translate : Failure → Failure
translate (http (status_error code)) = docling (bad_status code)
translate (http transport_error) = docling network_error
translate (docling e) = docling e
translate (fault f) = fault f

translated : {A : Type 0} → Result Failure A → Result Failure A
unfolding translate
translated (ok a) = ok a
translated (err e) = err (translate e)

faulty : {A : Type 0} → Result Fault A → Result Failure A
faulty (ok a) = ok a
faulty (err e) = err (fault e)

-- `chunk`: submit, wait and fetch under the `try`, and the parsing behind it. The polling is
-- given as its outcome.
unfoldable pub chunk :
    Result Failure Text
    → (Text → Result Failure (Unit {0}))
    → (Text → Result Failure Fields)
    → Text
    → Text
    → Result Failure (List DoclingChunk)
unfolding translated faulty
chunk submit wait_for fetch_result rag_id document_id = do
  payload ← translated (do task_id ← submit; wait_for task_id; fetch_result task_id)
  faulty (parse_chunks rag_id document_id payload)
