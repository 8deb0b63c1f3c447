-- ===== src/Search/Calibration.antt =====
-- app/search/scoring.py and `verify_cosine_calibration` of app/search/loader.py. The floating-point
-- numbers, with the operations that the code uses of them, are an argument.
use rag_ingestion_service.Prelude.{Bool, List, Text, [], codes, if◌then◌else◌, ◌∷◌}
use rag_ingestion_service.Prelude.Result.{Result, ok, err}
use rag_ingestion_service.Errors.{Exception, unexpected}
use rag_ingestion_service.Exec.{Exec, Keeps, pure, raise, lift, if-Keeps, >>=-Keeps, ◌>>=◌}
use rag_ingestion_service.Search.{OpenSearch}

pub record Floats (F : Type 0) : Type 0 where
  pub one : F
  pub two : F
  pub sub : F → F → F
  -- raises where the divisor is zero
  pub div : F → F → Result Exception F
  pub abs : F → F
  pub exceeds : F → F → Bool

-- The two searches of the check: the vectors of one chunk at most, and the scores of the chunk that
-- is nearest to a vector.
pub record Probes (I F : Type 0) : Type 0 where
  pub search_any : Exec I (List (List Text))
  pub search_near : List Text → Exec I (List F)

module _ {F : Type 0} (floats : Floats F) where
  open floats use {one, two, sub, div, abs, exceeds}

  abbrev pub minus_from : F → Result Exception F → Result Exception F
  minus_from a (ok b) = ok (sub a b)
  minus_from a (err e) = err e

  unfoldable pub score_from_cosine : F → Result Exception F
  score_from_cosine cosine = div one (sub two cosine)

  unfoldable pub cosine_from_score : F → Result Exception F
  cosine_from_score score = minus_from two (div one score)

  -- `found["hits"]["hits"][0]`
  abbrev pub first_hit : List F → Result Exception F
  first_hit [] = err (unexpected (codes "IndexError"))
  first_hit (score ∷ _) = ok score

  module _ {I : Type 0} (client : OpenSearch I) (probes : Probes I F) where
    unfoldable pub check_score : F → F → Exec I (Unit {0})
    check_score tolerance cosine =
        if exceeds (abs (sub cosine one)) tolerance
        then raise (unexpected (codes "RuntimeError"))
        else pure tt

    unfoldable pub check_vector : F → List Text → Exec I (Unit {0})
    unfolding cosine_from_score check_score
    check_vector tolerance vector = do
      found ← probes.search_near vector
      score ← lift (first_hit found)
      cosine ← lift (cosine_from_score score)
      check_score tolerance cosine

    abbrev pub check_first : F → List (List Text) → Exec I (Unit {0})
    check_first tolerance [] = pure tt
    check_first tolerance (vector ∷ _) = check_vector tolerance vector

    unfoldable pub verify_cosine_calibration : F → Exec I (Unit {0})
    unfolding check_vector
    verify_cosine_calibration tolerance = do
      there ← client.index_exists
      if there then (do hits ← probes.search_any; check_first tolerance hits) else pure tt

    check_first-Keeps :
        (P : I → Type 0) (tolerance : F)
        → ((vector : List Text) → Keeps P (probes.search_near vector))
        → (hits : List (List Text)) → Keeps P (check_first tolerance hits)
    unfolding check_vector check_score
    check_first-Keeps P tolerance near [] = λ i h. h
    check_first-Keeps P tolerance near (vector ∷ _) =
        >>=-Keeps P (probes.search_near vector) _ (near vector) (λ found.
          >>=-Keeps P (lift (first_hit found)) _ (λ i h. h)
            (λ score.
              >>=-Keeps P (lift (cosine_from_score score)) _ (λ i h. h)
                (λ cosine.
                  if-Keeps P (exceeds (abs (sub cosine one)) tolerance) _ _ (λ i h. h) (λ i h. h))))

    -- What its three queries keep, the check keeps.
    pub verify_cosine_calibration-Keeps :
        (P : I → Type 0) (tolerance : F)
        → Keeps P client.index_exists
        → Keeps P probes.search_any
        → ((vector : List Text) → Keeps P (probes.search_near vector))
        → Keeps P (verify_cosine_calibration tolerance)
    unfolding verify_cosine_calibration
    verify_cosine_calibration-Keeps P tolerance exists any near =
        >>=-Keeps P client.index_exists _ exists (λ there.
          if-Keeps P there _ _
            (>>=-Keeps P probes.search_any _ any (check_first-Keeps P tolerance near)) (λ i h. h))
