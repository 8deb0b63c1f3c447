-- ===== src/Embeddings/Batches.antt =====
-- app/embeddings/base.py: batching is invisible in the result.
use rag_ingestion_service.Prelude.{
  take, Bool-cases, List, Text, [], arith, drop, inl, inr, length, ltb, map, nat_eq, option_eq, suc,
  take-append-drop, text_eq, zero, ℕ, ◌++◌, ◌+◌, ◌<◌, ◌≡◌, ◌≤◌,
}
use mathlib.Core.List.{append-nil, append_assoc, map-append}
use rag_ingestion_service.Prelude.Slices.{length-take-drop, length-take-le, drop-drop, drop_all}
use rag_ingestion_service.Prelude.Result.{Result, ok}
use rag_ingestion_service.Embeddings.{EmbeddingResult, try_batch, embed_from, embed}

module _ {E : Type 0} (embed_batch : List Text → Result E (List EmbeddingResult)) (batch_size : ℕ)
    (f : Text → EmbeddingResult)
    (pointwise : (batch : List Text)
      → 0 < length batch
      → length batch ≤ batch_size
      → embed_batch batch ≡ ok (map f batch)) where
  try_batch_ok :
      (start : ℕ) (texts : List Text)
      → 0 < batch_size
      → start < length texts
      → try_batch embed_batch batch_size start (take batch_size (drop start texts))
        ≡ ok (map f (take batch_size (drop start texts)))
  try_batch_ok start texts pos more =
      let batch = take batch_size (drop start texts) in
      rw (
        pointwise batch (length-take-drop batch_size start texts pos more)
            (length-take-le batch_size (drop start texts)),
        try_batch,
      )

  embed_from-map :
      (fuel start : ℕ) (texts : List Text) (results : List EmbeddingResult)
      → 0 < batch_size
      → length texts ≤ start + fuel
      → embed_from embed_batch batch_size fuel start texts results
        ≡ ok (results ++ map f (drop start texts))
  unfolding embed_from
  embed_from-map zero start texts results pos h =
      rw (drop_all start texts (omega arith), append-nil)
  embed_from-map (suc fuel) start texts results pos h =
      elim (Bool-cases (ltb start (length texts))) [
        | inr done ↦ rw (done, drop_all start texts (ground arith), append-nil)
        | inl more ↦
            rw (more, try_batch_ok start texts pos (ground arith))
              (rw (
                embed_from-map fuel (start + batch_size) texts _ pos (omega arith),
                append_assoc,
                ← map-append,
                ← drop-drop,
                take-append-drop,
              ))
      ]

  -- Where the model embeds each text of a batch by itself, for every batch that is not empty and not
  -- over the size of a batch, the result is the embedding of every text, in order, for every positive
  -- size of a batch.
  pub embed-map :
      (texts : List Text) → 0 < batch_size → embed embed_batch batch_size texts ≡ ok (map f texts)
  unfolding embed
  embed-map texts pos = ground (arith, embed_from-map (length texts) 0 texts [] pos (omega arith))
