-- ===== src/Embeddings.antt =====
-- app/embeddings/base.py and http.py: texts are embedded batch by batch. The model, or the HTTP
-- service before it, is the argument `embed_batch`.
pub mod Batches
pub mod Remote
mod Samples
use rag_ingestion_service.Prelude.{
  List, Text, [], drop, if◌then◌else◌, length, ltb, nat_eq, option_eq, suc, take, text_eq, zero, ℕ,
  ◌++◌, ◌+◌, ◌==◌,
}
use rag_ingestion_service.Prelude.Result.{Result, ok, err, ◌>>=◌}

-- A vector of floats is kept as the text of its numbers.
pub record EmbeddingResult : Type 0 where
  pub dense : List Text
  pub sparse : List (Text × Text)

pub data EmbedError : Type 0 where
  -- `RuntimeError`, with the first and the last place of the batch that failed
  batch_failed : ℕ → ℕ → EmbedError
  -- `range` with step 0
  zero_step : EmbedError

module _ {E : Type 0} (embed_batch : List Text → Result E (List EmbeddingResult))
    (batch_size : ℕ) where
  -- `except Exception as exc: raise RuntimeError(…) from exc`
  abbrev try_batch : ℕ → List Text → Result EmbedError (List EmbeddingResult)
  try_batch start batch = elim (embed_batch batch) [
    | ok results ↦ ok results
    | err _ ↦ err (batch_failed start (start + length batch))
  ]

  -- The loop over `range(start, len(texts), batch_size)`; the fuel bounds the rounds.
  embed_from : ℕ → ℕ → List Text → List EmbeddingResult → Result EmbedError (List EmbeddingResult)
  embed_from zero start texts results = ok results
  embed_from (suc fuel) start texts results =
      let next = (do
        more ← try_batch start (take batch_size (drop start texts))
        embed_from fuel (start + batch_size) texts (results ++ more)) in
      if ltb start (length texts) then next else ok results

  unfoldable pub embed : List Text → Result EmbedError (List EmbeddingResult)
  unfolding embed_from
  embed texts = if batch_size == 0 then err zero_step else embed_from (length texts) 0 texts []
