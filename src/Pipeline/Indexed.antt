-- ===== src/Pipeline/Indexed.antt =====
-- app/search/loader.py: an index as a map from the keys of chunks to the digests of their contents, and
-- the entries that chunks make in it.
use rag_ingestion_service.Prelude.{
  ◌<◌, ◌⊎◌, Bool, Distinct, List, Option, Text, [], arith, contains, false, if_ind, is_empty,
  length, map, nat_eq, none, option_eq, refl, some, text_eq, true, ℕ, ◌==◌, ◌∷◌, ◌≡◌,
}
use rag_ingestion_service.Pipeline.{get_hash}
use rag_ingestion_service.Search.{OpenSearch, Action, to_action}
use mathlib.Core.List.{zip}
use rag_ingestion_service.Prelude.Filter.{filter}
use rag_ingestion_service.Prelude.Result.{ok}
use rag_ingestion_service.Settings.{Settings}
use rag_ingestion_service.Docling.Chunk.{DoclingChunk, chunk_id, content_hash, to_source}
use rag_ingestion_service.Embeddings.{EmbeddingResult}

pub empty_list : {A : Type 0} (xs : List A) → is_empty xs ≡ true → xs ≡ []
empty_list [] h = refl
empty_list (x ∷ xs) h = cc

-- The map, with the entries in front of what was there.
unfoldable pub overlay : List (Text × Text) → (Text → Option Text) → Text → Option Text
overlay entries before key = elim (get_hash key entries) [ some h ↦ some h | none ↦ before key ]

abbrev pub action_entry : Action → Text × Text
action_entry a = (a.action_id, a.source.source_hash)

-- What OpenSearch promises of an index `i` that holds the digest `hash_at i key` under a key: reading
-- changes nothing and a search finds only what is there; a bulk request whose actions have different
-- keys writes nothing else, and each of them is carried out or, where the number of those that succeeded
-- is less than their number, may have failed and left its key as it was.
pub record Indexes {I : Type 0} (client : OpenSearch I) (hash_at : I → Text → Option Text)
    : Type 0 where
  pub exists_keeps : (i : I) (key : Text) → hash_at (client.index_exists i).1 key ≡ hash_at i key
  pub refresh_keeps : (i : I) (key : Text) → hash_at (client.refresh i).1 key ≡ hash_at i key
  pub search_keeps :
      (rag_id document_id : Text) (i : I) (key : Text)
      → hash_at (client.search_hashes rag_id document_id i).1 key ≡ hash_at i key
  pub search_finds :
      (rag_id document_id : Text) (i i' : I) (known : List (Text × Text)) (key h : Text)
      → client.search_hashes rag_id document_id i ≡ (ok known, i')
      → get_hash key known ≡ some h
      → hash_at i key ≡ some h
  pub bulk_writes :
      (actions : List Action) (i i' : I) (n errors : ℕ) (key : Text)
      → Distinct (map (λ a. a.action_id) actions)
      → client.bulk actions i ≡ (ok (n, errors), i')
      → (hash_at i' key ≡ overlay (map action_entry actions) (hash_at i) key)
        ⊎ ((n < length actions) × (hash_at i' key ≡ hash_at i key))

module _ (digest : Text → Text) where
  abbrev pub entries : List DoclingChunk → List (Text × Text)
  entries = map (λ c. (chunk_id digest c, content_hash digest c))

  abbrev pub keys : List DoclingChunk → List Text
  keys = map (chunk_id digest)

  pub not_there :
      (key : Text) (chunks : List DoclingChunk)
      → contains (keys chunks) key ≡ false
      → get_hash key (entries chunks) ≡ none
  not_there key [] h = refl
  not_there key (c ∷ chunks) h = ground (arith, not_there key chunks)

  contains-filter :
      (p : DoclingChunk → Bool) (key : Text) (chunks : List DoclingChunk)
      → contains (keys chunks) key ≡ false
      → contains (keys (filter p chunks)) key ≡ false
  unfolding filter
  contains-filter p key [] h = h
  contains-filter p key (c ∷ chunks) h = ground (arith, contains-filter p key chunks)

  pub Distinct-filter :
      (p : DoclingChunk → Bool) (chunks : List DoclingChunk)
      → Distinct (keys chunks)
      → Distinct (keys (filter p chunks))
  unfolding filter
  Distinct-filter p [] d = d
  Distinct-filter p (c ∷ chunks) (fresh, d) =
      let rest = Distinct-filter p chunks d in
      if_ind (λ (cs : List DoclingChunk). Distinct (keys cs)) (p c)
        (λ _. (contains-filter p (chunk_id digest c) chunks fresh, rest)) (λ _. rest)

module _ (digest : Text → Text) {I : Type 0} (client : OpenSearch I) (s : Settings) where
  abbrev pub actions_of : List DoclingChunk → List EmbeddingResult → List Action
  actions_of chunks embeddings = map (to_action digest client s) (zip chunks embeddings)

  pub actions_lem :
      (chunks : List DoclingChunk) (embeddings : List EmbeddingResult)
      → (length chunks == length embeddings) ≡ true
      → (map action_entry (actions_of chunks embeddings) ≡ entries digest chunks)
        × (map (λ a. a.action_id) (actions_of chunks embeddings) ≡ keys digest chunks)
        × (length (actions_of chunks embeddings) ≡ length chunks)
  unfolding to_source zip
  actions_lem [] [] e = (refl, refl, refl)
  actions_lem [] (v ∷ vs) e = absurd (ground arith)
  actions_lem (c ∷ cs) [] e = absurd (ground arith)
  actions_lem (c ∷ cs) (v ∷ vs) e =
      let (as_entries, as_keys, as_many) = actions_lem cs vs (ground arith) in
      (rw as_entries, rw as_keys, rw as_many)

module _ (digest : Text → Text) where
  -- Under the key stands what `chunks` have there; or the key is as before, and fewer than the chunks
  -- `sent` were taken.
  abbrev pub Loaded :
      (before after : Text → Option Text) (chunks sent : List DoclingChunk) (n : ℕ) (key : Text)
      → Type 0
  Loaded before after chunks sent n key =
      (after key ≡ overlay (entries digest chunks) before key)
      ⊎ ((n < length sent) × (after key ≡ before key))
