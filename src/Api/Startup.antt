-- ===== src/Api/Startup.antt =====
-- app/main.py: `lifespan`, behind the loading of the models and the construction of the
-- clients.
use rag_ingestion_service.Storage.Buckets.{ensure_buckets_lem, Creates, ensure_buckets}
use rag_ingestion_service.Prelude.{
  ap, Bool, List, Text, false, if◌then◌else◌, nat_eq, option_eq, refl, text_eq, true, ◌≡◌, ◌∙◌,
  Bool-cases, inl, inr,
}
use rag_ingestion_service.Prelude.Result.{err, Result, ok}
use rag_ingestion_service.Exec.{>>=_returned, lift_ind, Exec, Keeps, pure, modify, ◌>>◌}
use rag_ingestion_service.Errors.{Exception}
use rag_ingestion_service.Settings.{Settings}
use rag_ingestion_service.Storage.{S3, bucket_exists}
use rag_ingestion_service.Search.{OpenSearch, ensure_index}
use rag_ingestion_service.Search.Calibration.{
  Floats, Probes, verify_cosine_calibration, verify_cosine_calibration-Keeps,
}

-- What startup changes; `ready` is the event that the internal application waits for.
pub record Process (S I : Type 0) : Type 0 where
  pub store : S
  pub index : I
  pub ready : Bool

module _ {S I : Type 0} where
  abbrev pub on_process_index : {A : Type 0} → Exec I A → Exec (Process S I) A
  on_process_index m p = let (r, i) = m p.index in (r, record p { index = i })

  abbrev pub on_process_store : {A : Type 0} → Exec S A → Exec (Process S I) A
  on_process_store m p = let (r, s) = m p.store in (r, record p { store = s })

module _ (digest : Text → Text) {S I F : Type 0} (s3 : S3 S) (client : OpenSearch I)
    (floats : Floats F) (probes : Probes I F) (tolerance : F) (s : Settings) where
  unfoldable pub lifespan : Exec (Process S I) (Unit {0})
  lifespan = do
    on_process_index (ensure_index digest client s)
    on_process_index (verify_cosine_calibration floats client probes tolerance)
    on_process_store (ensure_buckets s3 s)
    modify (λ (p : Process S I). record p { ready = true })

-- What OpenSearch promises of an index: it is asked for and searched without a change, and there once
-- it is created.
pub record CreatesIndex {I F : Type 0} (client : OpenSearch I) (probes : Probes I F)
    (exists : I → Bool) : Type 0 where
  pub asked : (i : I) → client.index_exists i ≡ (ok (exists i), i)
  pub made : (i i' : I) → client.create_index i ≡ (ok tt, i') → exists i' ≡ true
  pub any_kept : Keeps (λ i. exists i ≡ true) probes.search_any
  pub near_kept : (vector : List Text) → Keeps (λ i. exists i ≡ true) (probes.search_near vector)

module _ (digest : Text → Text) {S I F : Type 0} (s3 : S3 S) (client : OpenSearch I)
    (floats : Floats F) (probes : Probes I F) (tolerance : F) (s : Settings) (exists : I → Bool)
    (buckets : Creates s3) (indexes : CreatesIndex client probes exists) where
  ensure_index_lem : (i i' : I) → ensure_index digest client s i ≡ (ok tt, i') → exists i' ≡ true
  unfolding ensure_index
  ensure_index_lem i i' e =
      let asked = indexes.asked i in
      let made : (if exists i then pure tt else client.create_index) i ≡ (ok tt, i') =
        rw asked at e in
      elim (Bool-cases (exists i)) [
        | inl there ↦
            let same : pure tt i ≡ (ok tt, i') = rw there at made in
            let here : i ≡ i' = cc in rw (← here) there
        | inr away ↦ indexes.made i i' (rw away at made)
      ]

  index_there :
      (i i' : I)
      → exists i ≡ true
      → verify_cosine_calibration floats client probes tolerance i ≡ (ok tt, i')
      → exists i' ≡ true
  index_there i i' there e =
      let left : (verify_cosine_calibration floats client probes tolerance i).1 ≡ i' = cc in
      rw (← left) (
        verify_cosine_calibration-Keeps floats client probes (λ j. exists j ≡ true) tolerance
          (λ j h. rw (indexes.asked j) h) indexes.any_kept indexes.near_kept i there)

  abbrev Outcome : Type 0
  Outcome = Result Exception (Unit {0}) × Process S I

  abbrev Unready : Bool → Result Exception (Unit {0}) → Process S I → Type 0
  Unready was (ok done) p = Unit
  Unready was (err e) p = p.ready ≡ was

  -- A part that raises leaves the event as it was.
  raised-Unready :
      (p : Process S I)
      → Unready p.ready
          (lifespan digest s3 client floats probes tolerance s p).0
          (lifespan digest s3 client floats probes tolerance s p).1
  unfolding lifespan
  raised-Unready p =
      let (r₁, i) = ensure_index digest client s p.index in
      let (r₂, i') = verify_cosine_calibration floats client probes tolerance i in
      let (r₃, store) = ensure_buckets s3 s p.store in
      lift_ind (Unready p.ready) r₁ _ (record p { index = i }) (λ e. refl)
        (λ _.
          lift_ind (Unready p.ready) r₂ _ (record p { index = i' }) (λ e. refl)
            (λ _.
              lift_ind (Unready p.ready) r₃ _ (record p { index = i'; store = store }) (λ e. refl)
                (λ _. tt)))

  started_lem :
      (p p' : Process S I)
      → lifespan digest s3 client floats probes tolerance s p ≡ (ok tt, p')
      → (exists p'.index ≡ true)
        × (bucket_exists s3 s.s3_bucket_docs p'.store ≡ true)
        × (bucket_exists s3 s.s3_bucket_icons p'.store ≡ true)
        × (bucket_exists s3 s.s3_bucket_staging p'.store ≡ true)
  unfolding lifespan
  started_lem p p' e =
      let calibrate = on_process_index (verify_cosine_calibration floats client probes tolerance) in
      let make_buckets = on_process_store (ensure_buckets s3 s) in
      let set_ready = modify (λ (q : Process S I). record q { ready = true }) in
      let (_, p₁, at_index, e₁) =
        >>=_returned (on_process_index (ensure_index digest client s))
          (λ _. calibrate >> (make_buckets >> set_ready)) p tt p' e in
      let (_, p₂, at_scores, e₂) =
        >>=_returned calibrate (λ _. make_buckets >> set_ready) p₁ tt p' e₁ in
      let (_, p₃, at_store, e₃) = >>=_returned make_buckets (λ _. set_ready) p₂ tt p' e₂ in
      let there =
        index_there p₁.index p₂.index
          (ensure_index_lem p.index p₁.index (ap (λ (q : Outcome). (q.0, q.1.index)) at_index))
          (ap (λ (q : Outcome). (q.0, q.1.index)) at_scores) in
      let same_index : p₂.index ≡ p'.index =
        ap (λ (q : Outcome). q.1.index) at_store ∙ ap (λ (q : Outcome). q.1.index) e₃ in
      let same_store : p₃.store ≡ p'.store = ap (λ (q : Outcome). q.1.store) e₃ in
      let (docs, icons, staging) =
        ensure_buckets_lem s3 buckets s p₂.store p₃.store
          (ap (λ (q : Outcome). (q.0, q.1.store)) at_store) in
      (
        rw (← same_index) there,
        rw (← same_store) docs,
        rw (← same_store) icons,
        rw (← same_store) staging,
      )

  -- However a startup ends that begins when the service is not ready, the service is ready behind it
  -- only if the index and the three buckets are there, where S3 and OpenSearch do what `Creates` and
  -- `CreatesIndex` say.
  pub lifespan_lem :
      (p p' : Process S I) (r : Result Exception (Unit {0}))
      → p.ready ≡ false
      → lifespan digest s3 client floats probes tolerance s p ≡ (r, p')
      → p'.ready ≡ true
      → (exists p'.index ≡ true)
        × (bucket_exists s3 s.s3_bucket_docs p'.store ≡ true)
        × (bucket_exists s3 s.s3_bucket_icons p'.store ≡ true)
        × (bucket_exists s3 s.s3_bucket_staging p'.store ≡ true)
  lifespan_lem p p' (ok tt) unready e is_ready = started_lem p p' e
  lifespan_lem p p' (err x) unready e is_ready =
      let still : p'.ready ≡ p.ready = rw e at (raised-Unready p) in absurd (cc)
