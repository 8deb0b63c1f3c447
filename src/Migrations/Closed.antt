-- ===== src/Migrations/Closed.antt =====
-- alembic/versions: schemas whose keys and indexes name tables that are there.
use rag_ingestion_service.Prelude.{
  All, All-imp, Bool, List, Text, [], arith, false, map, nat_eq, not, option_eq, refl, text_eq,
  true, ◌==◌, ◌∙◌, ◌∷◌, ◌≡◌,
}
use rag_ingestion_service.Prelude.Filter.{filter, any}
use rag_ingestion_service.Migrations.{
  Column, Table, Index, Schema, has_table, references, refers_to, all_there, put_column,
  take_column, is_column_of,
}

-- The tables that foreign keys and indexes name are there.
pub record IsClosed (s : Schema) : Type 0 where
  pub keys : All (λ (t : Table). all_there s.tables (references t.constraints) ≡ true) s.tables
  pub homes : All (λ (i : Index). has_table i.table s.tables ≡ true) s.indexes

pub filter-absent :
    {A : Type 0} (p : A → Bool) (xs : List A) → any p xs ≡ false → filter (λ x. not (p x)) xs ≡ xs
unfolding filter any
filter-absent p [] h = refl
filter-absent p (x ∷ xs) h = ground (arith, filter-absent p xs)

module _ (tables : List Table) (name : Text) (fresh : has_table name tables ≡ false) where
  not_named :
      (names : List Text) → all_there tables names ≡ true → any (λ r. r == name) names ≡ false
  unfolding all_there any
  not_named [] h = refl
  not_named (n ∷ names) h = ground (arith, not_named names)

  pub not_referred :
      (ts : List Table)
      → All (λ (t : Table). all_there tables (references t.constraints) ≡ true) ts
      → any (refers_to name) ts ≡ false
  unfolding any
  not_referred [] h = refl
  not_referred (t ∷ ts) (p, h) = rw (not_named (references t.constraints) p, not_referred ts h)

  pub not_indexed :
      (is : List Index)
      → All (λ (i : Index). has_table i.table tables ≡ true) is
      → any (λ (i : Index). i.table == name) is ≡ false
  unfolding any
  not_indexed [] h = refl
  not_indexed (i ∷ is) (p, h) = ground (arith, not_indexed is h)

all_there-more :
    (t : Table) (tables : List Table) (names : List Text)
    → all_there tables names ≡ true
    → all_there (t ∷ tables) names ≡ true
unfolding all_there any
all_there-more t tables [] h = refl
all_there-more t tables (n ∷ names) h = ground (arith, all_there-more t tables names)

module _ (table : Text) (c : Column) where
  pub has_table-put :
      (n : Text) (ts : List Table) → has_table n (map (put_column table c) ts) ≡ has_table n ts
  unfolding any
  has_table-put n [] = refl
  has_table-put n (t ∷ ts) = ground (arith, has_table-put n ts)

  all_there-put :
      (ts : List Table) (names : List Text)
      → all_there (map (put_column table c) ts) names ≡ all_there ts names
  unfolding all_there
  all_there-put ts [] = refl
  all_there-put ts (n ∷ names) = rw (has_table-put n ts, all_there-put ts names)

  constraints-put : (t : Table) → (put_column table c t).constraints ≡ t.constraints
  constraints-put t = ground arith

  pub keys-put :
      (all ts : List Table)
      → All (λ (t : Table). all_there all (references t.constraints) ≡ true) ts
      → All
          (λ (t : Table).
            all_there (map (put_column table c) all) (references t.constraints) ≡ true)
          (map (put_column table c) ts)
  keys-put all [] h = tt
  keys-put all (t ∷ ts) (p, h) =
      (rw (constraints-put t, all_there-put all (references t.constraints)) p, keys-put all ts h)

  pub homes-put :
      (all : List Table) (is : List Index)
      → All (λ (i : Index). has_table i.table all ≡ true) is
      → All (λ (i : Index). has_table i.table (map (put_column table c) all) ≡ true) is
  homes-put all is = All-imp _ _ is (λ i p. has_table-put i.table all ∙ p)

  take_column-put_column :
      (t : Table)
      → is_column_of table c.name t ≡ false
      → take_column table c.name (put_column table c t) ≡ t
  unfolding filter any
  take_column-put_column t h =
      ground (arith, filter-absent (λ (d : Column). d.name == c.name) t.columns)

  pub take-put :
      (ts : List Table)
      → any (is_column_of table c.name) ts ≡ false
      → map (take_column table c.name) (map (put_column table c) ts) ≡ ts
  unfolding any
  take-put [] h = refl
  take-put (t ∷ ts) h = rw (take_column-put_column t (ground arith), take-put ts (ground arith))

  pub put_there :
      (ts : List Table)
      → has_table table ts ≡ true
      → any (is_column_of table c.name) (map (put_column table c) ts) ≡ true
  unfolding any
  put_there [] h = cc
  put_there (t ∷ ts) h = ground (arith, put_there ts)

-- Every table that stood before stands behind a new one.
pub more_homes :
    (t : Table) (tables : List Table) (is : List Index)
    → All (λ (i : Index). has_table i.table tables ≡ true) is
    → All (λ (i : Index). has_table i.table (t ∷ tables) ≡ true) is
unfolding any
more_homes t tables is = All-imp _ _ is (λ i p. ground arith)

pub more_keys :
    (t : Table) (tables ts : List Table)
    → All (λ (u : Table). all_there tables (references u.constraints) ≡ true) ts
    → All (λ (u : Table). all_there (t ∷ tables) (references u.constraints) ≡ true) ts
more_keys t tables ts = All-imp _ _ ts (λ u p. all_there-more t tables (references u.constraints) p)
