-- ===== src/Docling/Chunk/Identity.antt =====
-- app/docling/chunk.py: the keys of chunks under which the index stores them.
use rag_ingestion_service.Prelude.{
  Text, [], arith, contains, false, nat_eq, option_eq, refl, text_eq, ℕ, ◌++◌, ◌∷◌, ◌≡◌,
}
use rag_ingestion_service.Prelude.Decimal.{decimal_injective}
use rag_ingestion_service.Docling.Chunk.{chunk_key}

LacksColon : Text → Type 0
LacksColon t = contains t b':' ≡ false

-- What stands before the first colon is determined.
front_eq :
    (a b x y : Text)
    → contains a b':' ≡ false
    → contains b b':' ≡ false
    → a ++ (b':' ∷ x) ≡ b ++ (b':' ∷ y)
    → (a ≡ b) × (x ≡ y)
front_eq [] [] x y ha hb e = (refl, cc)
front_eq [] (d ∷ b) x y ha hb e = ground arith
front_eq (c ∷ a) [] x y ha hb e = ground arith
front_eq (c ∷ a) (d ∷ b) x y ha hb e =
    let (p, q) = front_eq a b x y (ground arith) (ground arith) (cc) in (cc, q)

-- The text under the digest determines the set, the document and the number of a chunk, where
-- the identifiers hold no colon, as UUIDs do.
pub chunk_key_injective :
    (r d r' d' : Text) (i i' : ℕ)
    → contains r b':' ≡ false
    → contains r' b':' ≡ false
    → contains d b':' ≡ false
    → contains d' b':' ≡ false
    → chunk_key r d i ≡ chunk_key r' d' i'
    → (r ≡ r') × (d ≡ d') × (i ≡ i')
chunk_key_injective r d r' d' i i' hr hr' hd hd' e =
    let (p, e₁) = front_eq r r' _ _ hr hr' e in
    let (q, e₂) = front_eq d d' _ _ hd hd' e₁ in (p, q, decimal_injective i i' e₂)
