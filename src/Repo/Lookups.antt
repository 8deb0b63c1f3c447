-- ===== src/Repo/Lookups.antt =====
-- app/db/repo.py: the two ways to ask for known content.
use rag_ingestion_service.Prelude.{
  List, Text, [], arith, contains, false, map, nat_eq, none, option_eq, refl, text_eq, ℕ, ◌↔◌, ◌∷◌,
  ◌≡◌,
}
use rag_ingestion_service.Prelude.Filter.{filter}
use rag_ingestion_service.Models.{Document, Db, has_content}
use rag_ingestion_service.Repo.{find_by_hash, existing_hashes, scalar_one_or_none, documents_of}

hash_found :
    (rag_id : ℕ) (hash : Text) (docs : List Document)
    → (scalar_one_or_none (filter (has_content rag_id hash) docs) ≡ none)
      ↔ (contains (map (λ d. d.content_hash) (documents_of rag_id docs)) hash ≡ false)
unfolding filter
hash_found rag_id hash [] = (λ _. refl, λ _. refl)
hash_found rag_id hash (d ∷ docs) = ground (arith, hash_found rag_id hash docs)

-- The deduplication of uploads (`find_by_hash`) and that of bucket imports (`existing_hashes`)
-- agree on which contents a set holds.
pub find_by_hash-existing_hashes :
    (db : Db) (rag_id : ℕ) (hash : Text)
    → (find_by_hash db rag_id hash ≡ none) ↔ (contains (existing_hashes db rag_id) hash ≡ false)
unfolding find_by_hash existing_hashes
find_by_hash-existing_hashes db rag_id hash = hash_found rag_id hash db.documents
