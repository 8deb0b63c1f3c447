-- ===== src/Pipeline/Ingested.antt =====
-- app/pipeline.py and app/search/loader.py: what an ingestion makes of an index.
use mathlib.Core.Path.{subst, fun_ext}
use rag_ingestion_service.Pipeline.Indexed.{
  Loaded, Indexes, overlay, entries, keys, empty_list, not_there, Distinct-filter, actions_of,
  actions_lem,
}
use rag_ingestion_service.Prelude.{
  sym, ap, Bool, Bool-cases, Distinct, List, Option, Text, [], arith, false, if◌then◌else◌, inl,
  inr, is_empty, length, ltb, map, nat_eq, option_eq, refl, some, text_eq, true, ℕ, ◌&&◌, ◌==◌, ◌∙◌,
  ◌∷◌, ◌≡◌,
}
use rag_ingestion_service.Pipeline.{err, embed_and_load, ingest_source, get_hash, is_changed}
use rag_ingestion_service.Exec.{continue, Exec, raise, pure, >>=_returned, ◌>>=◌, ◌>>◌}
use rag_ingestion_service.Search.{existing_hashes, OpenSearch, load_chunks}
use rag_ingestion_service.Prelude.Filter.{filter}
use rag_ingestion_service.Prelude.Result.{Result, ok}
use rag_ingestion_service.Errors.{Exception, lengths_differ}
use rag_ingestion_service.Settings.{Settings}
use rag_ingestion_service.Docling.Chunk.{DoclingChunk, chunk_id, content_hash}
use rag_ingestion_service.Embeddings.{EmbeddingResult}

module _ (digest : Text → Text) {I : Type 0} (client : OpenSearch I) (s : Settings)
    (embedder : List Text → Result Exception (List EmbeddingResult)) where
  -- Chunks that the index holds with the same content can be left out.
  overlay-filter :
      (known : List (Text × Text)) (before : Text → Option Text) (key : Text)
      (chunks : List DoclingChunk)
      → Distinct (keys digest chunks)
      → ((k h : Text) → get_hash k known ≡ some h → before k ≡ some h)
      → overlay
          (entries digest (filter (is_changed digest client s embedder known) chunks))
          before
          key
        ≡ overlay (entries digest chunks) before key
  unfolding overlay filter
  overlay-filter known before key [] d sound = refl
  overlay-filter known before key (c ∷ chunks) (fresh, d) sound = ground (
    arith,
    overlay-filter known before key chunks d sound,
    not_there digest (chunk_id digest c) chunks fresh,
    sound (chunk_id digest c) (content_hash digest c),
  )

  abbrev pub changed_chunks :
      List DoclingChunk → Result Exception (List (Text × Text)) → List DoclingChunk
  changed_chunks chunks (ok known) = filter (is_changed digest client s embedder known) chunks
  changed_chunks chunks (err e) = []

  -- The chunks that `ingest_source` sends: those that the search in the index does not find with the
  -- same content, or all of them.
  abbrev pub sent_chunks : Text → Text → Bool → List DoclingChunk → I → List DoclingChunk
  sent_chunks rag_id document_id false chunks i = chunks
  sent_chunks rag_id document_id true chunks i =
      changed_chunks chunks (existing_hashes digest client s rag_id document_id i).0

  module _ (hash_at : I → Text → Option Text) (laws : Indexes client hash_at) where
    refreshed :
        (succeeded n : ℕ) (b : Bool) (i i' : I) (key : Text)
        → (if b then (do client.refresh; pure succeeded) else pure succeeded) i ≡ (ok n, i')
        → (hash_at i' key ≡ hash_at i key) × (succeeded ≡ n)
    refreshed succeeded n true i i' key e =
        let (_, i'', at_refresh, last) =
          >>=_returned client.refresh (λ _. pure succeeded) i n i' e in
        let same : (client.refresh i).1 ≡ i' = cc in (rw (← same) (laws.refresh_keeps i key), cc)
    refreshed succeeded n false i i' key e = let same : i ≡ i' = cc in (rw (← same) refl, cc)

    bulk-overlay :
        (chunks : List DoclingChunk) (embeddings : List EmbeddingResult) (i i' : I) (n errors : ℕ)
        (key : Text)
        → (length chunks == length embeddings) ≡ true
        → Distinct (keys digest chunks)
        → client.bulk (actions_of digest client s chunks embeddings) i ≡ (ok (n, errors), i')
        → Loaded digest (hash_at i) (hash_at i') chunks chunks n key
    bulk-overlay chunks embeddings i i' n errors key same d e =
        let (as_entries, as_keys, as_many) = actions_lem digest client s chunks embeddings same in
        let actions = actions_of digest client s chunks embeddings in
        elim (laws.bulk_writes actions i i' n errors key (rw as_keys d) e) [
          | inl done ↦ inl (rw (← as_entries) done)
          | inr (few, kept) ↦ inr (rw (← as_many) few, kept)
        ]

    -- What `load` does with the numbers of a bulk request.
    abbrev after_bulk : ℕ × ℕ → Exec I ℕ
    after_bulk (succeeded, errors) =
        if ltb 0 succeeded && s.refresh_after_load
        then (do client.refresh; pure succeeded)
        else pure succeeded

    load-overlay :
        (chunks : List DoclingChunk) (embeddings : List EmbeddingResult) (i i' : I) (n : ℕ)
        (key : Text)
        → Distinct (keys digest chunks)
        → load_chunks digest client s chunks embeddings i ≡ (ok n, i')
        → Loaded digest (hash_at i) (hash_at i') chunks chunks n key
    unfolding load_chunks overlay
    load-overlay chunks embeddings i i' n key d e =
        elim (Bool-cases (length chunks == length embeddings)) [
          | inr differ ↦
              let raised : raise (lengths_differ (length chunks) (length embeddings)) i
                  ≡ (ok n, i') =
                rw differ at e in
              absurd (cc)
          | inl same ↦ elim (Bool-cases (is_empty chunks)) [
            | inl nothing ↦
                let unchanged : pure 0 i ≡ (ok n, i') = rw (same, nothing) at e in
                let here : i ≡ i' = cc in inl (rw (← here, empty_list chunks nothing) refl)
            | inr filled ↦
                let actions = actions_of digest client s chunks embeddings in
                let written : (client.bulk actions >>= after_bulk) i ≡ (ok n, i') =
                  rw (same, filled) at e in
                let ((succeeded, errors), i'', at_bulk, last) =
                  >>=_returned (client.bulk actions) after_bulk i n i' written in
                let (kept, as_many) =
                  refreshed succeeded n (ltb 0 succeeded && s.refresh_after_load) i'' i' key last in
                elim (bulk-overlay chunks embeddings i i'' succeeded errors key same d at_bulk) [
                  | inl done ↦ inl (kept ∙ done)
                  | inr (few, as_before) ↦ inr (rw (← as_many) few, kept ∙ as_before)
                ]
          ]
        ]

    embedded :
        (chunks : List DoclingChunk) (i i' : I) (n : ℕ) (key : Text)
        → Distinct (keys digest chunks)
        → embed_and_load digest client s embedder chunks i ≡ (ok n, i')
        → Loaded digest (hash_at i) (hash_at i') chunks chunks n key
    unfolding embed_and_load
    embedded chunks i i' n key d e = go (embedder (map (λ c. c.embed_text) chunks)) e
      where
        go :
            (r : Result Exception (List EmbeddingResult))
            → continue r (λ embeddings. load_chunks digest client s chunks embeddings) i
              ≡ (ok n, i')
            → Loaded digest (hash_at i) (hash_at i') chunks chunks n key
        go (ok embeddings) e = load-overlay chunks embeddings i i' n key d e
        go (err x) e = absurd (cc)

    -- Reading the known digests changes nothing, and they are those of the index.
    hashes_lem :
        (rag_id document_id : Text) (i i' : I) (known : List (Text × Text))
        → existing_hashes digest client s rag_id document_id i ≡ (ok known, i')
        → ((key : Text) → hash_at i' key ≡ hash_at i key)
          × ((key h : Text) → get_hash key known ≡ some h → hash_at i key ≡ some h)
    unfolding existing_hashes
    hashes_lem rag_id document_id i i' known e =
        let (there, i'', at_exists, last) =
          >>=_returned client.index_exists
            (λ there. if there then client.search_hashes rag_id document_id else pure []) i known i'
            e in
        let looked : (client.index_exists i).1 ≡ i'' = cc in
        let as_before : (key : Text) → hash_at i'' key ≡ hash_at i key =
          λ key. rw (← looked) (laws.exists_keeps i key) in
        go there i'' last as_before
      where
        go :
            (there : Bool) (i'' : I)
            → (if there then client.search_hashes rag_id document_id else pure []) i''
              ≡ (ok known, i')
            → ((key : Text) → hash_at i'' key ≡ hash_at i key)
            → ((key : Text) → hash_at i' key ≡ hash_at i key)
              × ((key h : Text) → get_hash key known ≡ some h → hash_at i key ≡ some h)
        go true i'' last before =
            let searched : (client.search_hashes rag_id document_id i'').1 ≡ i' = cc in
            (
              λ key. rw (← searched) (laws.search_keeps rag_id document_id i'' key ∙ before key),
              λ key h e.
                  sym (before key) ∙ laws.search_finds rag_id document_id i'' i' known key h last e,
            )
        go false i'' last before =
            let same : i'' ≡ i' = cc in
            let empty : [] ≡ known = cc in (λ key. rw (← same) (before key), λ key h e. absurd (cc))

    -- The chunks that are left, none or some.
    left_over :
        (chunks : List DoclingChunk) (i i' : I) (n : ℕ) (key : Text)
        → Distinct (keys digest chunks)
        → (if is_empty chunks then pure 0 else embed_and_load digest client s embedder chunks) i
          ≡ (ok n, i')
        → Loaded digest (hash_at i) (hash_at i') chunks chunks n key
    unfolding overlay
    left_over [] i i' n key d e = let same : i ≡ i' = cc in inl (rw (← same) refl)
    left_over (c ∷ chunks) i i' n key d e = embedded (c ∷ chunks) i i' n key d e

    after_hashes :
        (chunks : List DoclingChunk) (known : List (Text × Text)) (i i₁ i' : I) (n : ℕ) (key : Text)
        → Distinct (keys digest chunks)
        → ((k : Text) → hash_at i₁ k ≡ hash_at i k)
        → ((k h : Text) → get_hash k known ≡ some h → hash_at i k ≡ some h)
        → (let changed = filter (is_changed digest client s embedder known) chunks in
            (if is_empty changed then pure 0 else embed_and_load digest client s embedder changed)
              i₁
            ≡ (ok n, i'))
        → Loaded digest
            (hash_at i)
            (hash_at i')
            chunks
            (filter (is_changed digest client s embedder known) chunks)
            n
            key
    after_hashes chunks known i i₁ i' n key d same sound e =
        let changed = filter (is_changed digest client s embedder known) chunks in
        let before : hash_at i₁ ≡ hash_at i = fun_ext same in
        elim (left_over changed i₁ i' n key (Distinct-filter digest _ chunks d) e) [
          | inl done ↦ inl (
              done
              ∙ ap (λ (v : Text → Option Text). overlay (entries digest changed) v key) before
              ∙ overlay-filter known (hash_at i) key chunks d sound)
          | inr (few, kept) ↦ inr (few, kept ∙ same key)
        ]

    -- What `ingest_source` does with the known digests.
    abbrev after_search : List DoclingChunk → List (Text × Text) → Exec I ℕ
    after_search chunks known =
        let changed = filter (is_changed digest client s embedder known) chunks in
        if is_empty changed then pure 0 else embed_and_load digest client s embedder changed

    -- An ingestion that returns the number of chunks that it sends has put every chunk of the document
    -- into the index under its key with the digest of its content; with a smaller number single keys may
    -- be as before. Every other key is as it was. It holds with and without passing over the chunks that
    -- the index already holds.
    pub ingest_source-overlay :
        (chunks : List DoclingChunk) (rag_id document_id : Text) (skip_unchanged : Bool) (i i' : I)
        (n : ℕ) (key : Text)
        → Distinct (keys digest chunks)
        → ingest_source digest client s embedder (pure chunks) rag_id document_id skip_unchanged i
          ≡ (ok n, i')
        → Loaded digest
            (hash_at i)
            (hash_at i')
            chunks
            (sent_chunks rag_id document_id skip_unchanged chunks i)
            n
            key
    unfolding ingest_source overlay
    ingest_source-overlay [] rag_id document_id skip_unchanged i i' n key d e =
        let same : i ≡ i' = cc in inl (rw (← same) refl)
    ingest_source-overlay (c ∷ cs) rag_id document_id false i i' n key d e =
        embedded (c ∷ cs) i i' n key d e
    ingest_source-overlay (c ∷ cs) rag_id document_id true i i' n key d e =
        let (known, i₁, at_hashes, last) =
          >>=_returned (existing_hashes digest client s rag_id document_id) (after_search (c ∷ cs))
            i n i' e in
        let (same, sound) = hashes_lem rag_id document_id i i₁ known at_hashes in
        subst
          (λ (r : Result Exception (List (Text × Text)) × I).
            Loaded digest (hash_at i) (hash_at i') (c ∷ cs) (changed_chunks (c ∷ cs) r.0) n key)
          (sym at_hashes) (after_hashes (c ∷ cs) known i i₁ i' n key d same sound last)
