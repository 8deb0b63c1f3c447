-- ===== src/Storage/Buckets.antt =====
-- app/storage/seaweed.py: `ensure_buckets` and `healthy`.
use rag_ingestion_service.Exec.{>>=-Keeps, >>=_returned, Exec, pure, ◌>>◌}
use rag_ingestion_service.Prelude.{
  All, Bool, Bool-cases, List, Text, [], ap, arith, false, if◌then◌else◌, inl, inr, nat_eq,
  option_eq, text_eq, true, ◌∷◌, ◌≡◌,
}
use rag_ingestion_service.Prelude.Result.{Result, ok, err}
use rag_ingestion_service.Errors.{Exception}
use rag_ingestion_service.Settings.{Settings}
use rag_ingestion_service.Storage.{S3, bucket_exists}

module _ {S : Type 0} (s3 : S3 S) where
  -- The body of the loop: a bucket that is not there is made.
  ensure_bucket : Text → Exec S (Unit {0})
  ensure_bucket bucket s =
      if bucket_exists s3 bucket s then (ok tt, s) else s3.create_bucket bucket s

  ensure_each : List Text → Exec S (Unit {0})
  unfolding ensure_bucket
  ensure_each [] = pure tt
  ensure_each (bucket ∷ buckets) = do ensure_bucket bucket; ensure_each buckets

  abbrev pub own_buckets : Settings → List Text
  own_buckets settings =
      settings.s3_bucket_docs ∷ settings.s3_bucket_icons ∷ settings.s3_bucket_staging ∷ []

  unfoldable pub ensure_buckets : Settings → Exec S (Unit {0})
  unfolding ensure_each
  ensure_buckets settings = ensure_each (own_buckets settings)

  unfoldable pub healthy : S → Bool
  healthy s = elim (s3.list_buckets s) [ ok _ ↦ true | err _ ↦ false ]

-- What S3 promises of `create_bucket`: when it returns, the bucket is there, and whatever it does,
-- no bucket goes away.
pub record Creates {S : Type 0} (s3 : S3 S) : Type 0 where
  pub made :
      (bucket : Text) (s s' : S)
      → s3.create_bucket bucket s ≡ (ok tt, s')
      → bucket_exists s3 bucket s' ≡ true
  pub kept :
      (bucket other : Text) (s : S)
      → bucket_exists s3 other s ≡ true
      → bucket_exists s3 other (s3.create_bucket bucket s).1 ≡ true

module _ {S : Type 0} (s3 : S3 S) (laws : Creates s3) where
  ensure_bucket-keeps :
      (bucket other : Text) (s : S)
      → bucket_exists s3 other s ≡ true
      → bucket_exists s3 other (ensure_bucket s3 bucket s).1 ≡ true
  unfolding ensure_bucket
  ensure_bucket-keeps bucket other s h = elim (Bool-cases (bucket_exists s3 bucket s)) [
    | inl there ↦ rw there h
    | inr away ↦ rw away (laws.kept bucket other s h)
  ]

  ensure_bucket-makes :
      (bucket : Text) (s s' : S)
      → ensure_bucket s3 bucket s ≡ (ok tt, s')
      → bucket_exists s3 bucket s' ≡ true
  unfolding ensure_bucket
  ensure_bucket-makes bucket s s' h = ground (arith, laws.made bucket s s')

  ensure_each-keeps :
      (buckets : List Text) (other : Text) (s : S)
      → bucket_exists s3 other s ≡ true
      → bucket_exists s3 other (ensure_each s3 buckets s).1 ≡ true
  unfolding ensure_each
  ensure_each-keeps [] other s h = h
  ensure_each-keeps (bucket ∷ buckets) other s h =
      >>=-Keeps (λ t. bucket_exists s3 other t ≡ true) (ensure_bucket s3 bucket)
        (λ _. ensure_each s3 buckets) (λ t p. ensure_bucket-keeps bucket other t p)
        (λ _ t p. ensure_each-keeps buckets other t p) s h

  ensure_each-makes :
      (buckets : List Text) (s s' : S)
      → ensure_each s3 buckets s ≡ (ok tt, s')
      → All (λ b. bucket_exists s3 b s' ≡ true) buckets
  unfolding ensure_each
  ensure_each-makes [] s s' h = tt
  ensure_each-makes (bucket ∷ buckets) s s' h =
      let (done, mid, first, rest) =
        >>=_returned (ensure_bucket s3 bucket) (λ _. ensure_each s3 buckets) s tt s' h in
      let there = ensure_bucket-makes bucket s mid first in
      let kept = ensure_each-keeps buckets bucket mid there in
      let last : (ensure_each s3 buckets mid).1 ≡ s' =
        ap (λ (p : Result Exception (Unit {0}) × S). p.1) rest in
      (rw (← last) kept, ensure_each-makes buckets mid s' rest)

  -- When `ensure_buckets` returns, the three buckets of the service are there.
  pub ensure_buckets_lem :
      (settings : Settings) (s s' : S)
      → ensure_buckets s3 settings s ≡ (ok tt, s')
      → (bucket_exists s3 settings.s3_bucket_docs s' ≡ true)
        × (bucket_exists s3 settings.s3_bucket_icons s' ≡ true)
        × (bucket_exists s3 settings.s3_bucket_staging s' ≡ true)
  unfolding ensure_buckets
  ensure_buckets_lem settings s s' h =
      let (docs, (icons, (staging, _))) = ensure_each-makes (own_buckets s3 settings) s s' h in
      (docs, icons, staging)
