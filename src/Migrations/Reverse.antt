-- ===== src/Migrations/Reverse.antt =====
-- alembic/versions: operations, the operations that take them back, and runs of them.
use rag_ingestion_service.Prelude.{
  List, Option, Text, [], ap, arith, false, if_ind, map, nat_eq, none, not, option_eq, refl, some,
  sym, text_eq, true, ◌++◌, ◌==◌, ◌||◌, ◌∙◌, ◌∷◌, ◌≡◌,
}
use rag_ingestion_service.Prelude.Filter.{filter, any}
use rag_ingestion_service.Migrations.{
  Column, Table, Index, Schema, Operation, create_table, drop_table, create_index, drop_index,
  add_column, drop_column, has_table, has_index, references, all_there, put_column, is_column_of,
  run_operation, run,
}
use rag_ingestion_service.Migrations.Closed.{
  IsClosed, filter-absent, not_referred, not_indexed, keys-put, homes-put, take-put, put_there,
  more_homes, more_keys,
}

-- A creation and the removal of what it created; a migration and its way back.
pub data Undoes : Operation → Operation → Type 0 where
  undo_table : (t : Table) → Undoes (create_table t) (drop_table t.name)
  undo_index : (i : Index) → Undoes (create_index i) (drop_index i.name)
  undo_column : (table : Text) (c : Column) → Undoes (add_column table c) (drop_column table c.name)

pub data Reverts : List Operation → List Operation → Type 0 where
  nothing : Reverts [] []
  and_first :
      {op back : Operation} {ops backs : List Operation}
      → Undoes op back
      → Reverts ops backs
      → Reverts (op ∷ ops) (backs ++ back ∷ [])

table_dropped :
    (t : Table) (s : Schema)
    → IsClosed s
    → has_table t.name s.tables ≡ false
    → run_operation (drop_table t.name) (record s { tables = t ∷ s.tables }) ≡ some s
unfolding run_operation filter any
table_dropped t s h fresh =
    let kept = filter-absent (λ (u : Table). u.name == t.name) s.tables fresh in
    let unnamed = not_referred s.tables t.name fresh s.tables h.keys in
    let own =
      filter-absent (λ (i : Index). i.table == t.name) s.indexes
        (not_indexed s.tables t.name fresh s.indexes h.homes) in
    ground (arith, kept, unnamed, own)

table_undone :
    (t : Table) (s s' : Schema)
    → IsClosed s
    → run_operation (create_table t) s ≡ some s'
    → IsClosed s' × (run_operation (drop_table t.name) s' ≡ some s)
unfolding run_operation
table_undone t s s' h =
    let taken = has_table t.name s.tables in
    let housed = all_there (t ∷ s.tables) (references t.constraints) in
    if_ind
      (λ (r : Option Schema).
        r ≡ some s' → IsClosed s' × (run_operation (drop_table t.name) s' ≡ some s))
      (taken || not housed) (λ _ e. cc)
      λ free e.
        let made : record s { tables = t ∷ s.tables } ≡ s' = cc in
        let fresh : taken ≡ false = ground arith in
        rw (← made) (
          record {
            keys = (ground arith, more_keys t s.tables s.tables h.keys);
            homes = more_homes t s.tables s.indexes h.homes;
          },
          table_dropped t s h fresh,
        )

index_undone :
    (i : Index) (s s' : Schema)
    → IsClosed s
    → run_operation (create_index i) s ≡ some s'
    → IsClosed s' × (run_operation (drop_index i.name) s' ≡ some s)
unfolding run_operation filter any
index_undone i s s' h =
    let taken = has_index i.name s.indexes in
    let housed = has_table i.table s.tables in
    if_ind
      (λ (r : Option Schema).
        r ≡ some s' → IsClosed s' × (run_operation (drop_index i.name) s' ≡ some s))
      (taken || not housed) (λ _ e. cc)
      λ free e.
        let made : record s { indexes = i ∷ s.indexes } ≡ s' = cc in
        let fresh : taken ≡ false = ground arith in
        let kept = filter-absent (λ (j : Index). j.name == i.name) s.indexes fresh in
        rw (← made)
          (record { keys = h.keys; homes = (ground arith, h.homes) }, ground (arith, kept))

column_undone :
    (table : Text) (c : Column) (s s' : Schema)
    → IsClosed s
    → run_operation (add_column table c) s ≡ some s'
    → IsClosed s' × (run_operation (drop_column table c.name) s' ≡ some s)
unfolding run_operation
column_undone table c s s' h =
    let there = has_table table s.tables in
    let taken = any (is_column_of table c.name) s.tables in
    if_ind
      (λ (r : Option Schema).
        r ≡ some s' → IsClosed s' × (run_operation (drop_column table c.name) s' ≡ some s))
      (not there || taken) (λ _ e. cc)
      λ free e.
        let made : record s { tables = map (put_column table c) s.tables } ≡ s' = cc in
        let housed : there ≡ true = ground arith in
        let fresh : taken ≡ false = ground arith in
        rw (← made) (
          record {
            keys = keys-put table c s.tables s.tables h.keys;
            homes = homes-put table c s.tables s.indexes h.homes;
          },
          rw (put_there table c s.tables housed, take-put table c s.tables fresh),
        )

undone :
    {op back : Operation} (s s' : Schema)
    → Undoes op back
    → IsClosed s
    → run_operation op s ≡ some s'
    → IsClosed s' × (run_operation back s' ≡ some s)
undone s s' (undo_table t) = table_undone t s s'
undone s s' (undo_index i) = index_undone i s s'
undone s s' (undo_column table c) = column_undone table c s s'

run-some :
    (op : Operation) (ops : List Operation) (s s' : Schema)
    → run (op ∷ ops) s ≡ some s'
    → (t : Schema) × (run_operation op s ≡ some t) × (run ops t ≡ some s')
unfolding run
run-some op ops s s' = go (run_operation op s) refl
  where
    go :
        (r : Option Schema)
        → run_operation op s ≡ r
        → (elim r [ some t ↦ run ops t | none ↦ none ]) ≡ some s'
        → (t : Schema) × (run_operation op s ≡ some t) × (run ops t ≡ some s')
    go (some t) e h = (t, e, h)
    go none e h = cc

run-first :
    (op : Operation) (ops : List Operation) (s t : Schema)
    → run_operation op s ≡ some t
    → run (op ∷ ops) s ≡ run ops t
unfolding run
run-first op ops s t = ap (λ (r : Option Schema). elim r [ some u ↦ run ops u | none ↦ none ])

run-append :
    (ops more : List Operation) (s s' : Schema)
    → run ops s ≡ some s'
    → run (ops ++ more) s ≡ run more s'
unfolding run
run-append [] more s s' h =
    ap (λ (r : Option Schema). elim r [ some t ↦ run more t | none ↦ run more s ]) h
run-append (op ∷ ops) more s s' h =
    let (t, e, rest) = run-some op ops s s' h in
    run-first op (ops ++ more) s t e ∙ run-append ops more t s' rest

pub reverted :
    {ops backs : List Operation} (s s' : Schema)
    → Reverts ops backs
    → IsClosed s
    → run ops s ≡ some s'
    → run backs s' ≡ some s
unfolding run
reverted s s' nothing closed h = sym h
reverted s s' (and_first {op} {back} {ops} {backs} first rest) closed h =
    let (t, e, more) = run-some op ops s s' h in
    let (closed_t, undo) = undone s t first closed e in
    run-append backs (back ∷ []) s' t (reverted t s' rest closed_t more)
    ∙ run-first back [] t s undo

-- A run, operation by operation.
pub data Runs : List Operation → Schema → Schema → Type 0 where
  done : (s : Schema) → Runs [] s s
  then_run :
      {op : Operation} {ops : List Operation} {s t last : Schema}
      → run_operation op s ≡ some t
      → Runs ops t last
      → Runs (op ∷ ops) s last

pub run-Runs : {ops : List Operation} {s last : Schema} → Runs ops s last → run ops s ≡ some last
unfolding run
run-Runs (done s) = refl
run-Runs (then_run {op} {ops} {s} {t} {last} e rest) = run-first op ops s t e ∙ run-Runs rest
