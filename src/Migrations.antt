-- ===== src/Migrations.antt =====
-- Alembic's operations, as alembic/versions uses them, on a schema of tables and indexes. An
-- operation that Postgres refuses has no result, and then neither has the migration, whose
-- statements run in one transaction.
pub mod Versions
pub mod Closed
pub mod Reverse
pub mod Undo
pub mod Rows
pub mod Origins
mod Samples
use rag_ingestion_service.Prelude.{
  All, All-append, All-imp, Bool, Bool-cases, Distinct, Distinct-snoc, List, Option, Option-cases,
  Text, [], after_last, ap, arith, codes, contains, contains-after_last, contains-append,
  contains-remove_ne, dot, drop, ends_with, false, foldl, foldl_inv, if_ind, if◌then◌else◌, inl,
  inr, is_empty, leb, length, length-append, length-map, length-remove-le, length-remove-lt, lower,
  lower_char, ltb, map, nat_eq, none, not, option_eq, refl, remove, slash, some, suc, sym, take,
  take-append-drop, text_eq, true, zero, ℕ, ◌%◌, ◌&&◌, ◌*◌, ◌++◌, ◌+◌, ◌-◌, ◌/◌, ◌<◌, ◌==◌, ◌^◌,
  ◌||◌, ◌↔◌, ◌∙◌, ◌∷◌, ◌≡◌, ◌≢◌, ◌≤◌, ◌⊎◌,
}
use rag_ingestion_service.Prelude.Filter.{filter, any}

pub data ColumnType : Type 0 where
  uuid text float integer big_integer date_time : ColumnType
  string : ℕ → ColumnType

-- `sa.Column`; a `server_default` is the text of its expression.
pub record Column : Type 0 where
  pub name : Text
  pub type : ColumnType
  pub server_default : Option Text
  pub nullable : Bool

-- The conditions of the checks: `c >= lo AND c <= hi`, and `c IN (…)`.
pub data Condition : Type 0 where
  in_range : Text → ℕ → ℕ → Condition
  one_of : Text → List Text → Condition

pub data OnDelete : Type 0 where
  cascade set_null : OnDelete

pub data Constraint : Type 0 where
  check : Condition → Text → Constraint
  primary_key : List Text → Constraint
  foreign_key : Text → Text → OnDelete → Constraint
  unique_columns : List Text → Text → Constraint

pub record Table : Type 0 where
  pub name : Text
  pub columns : List Column
  pub constraints : List Constraint

pub record Index : Type 0 where
  pub name : Text
  pub table : Text
  pub expressions : List Text
  pub unique : Bool
  pub condition : Option Text

-- The newest table and the newest index stand first.
pub record Schema : Type 0 where
  pub tables : List Table
  pub indexes : List Index

abbrev pub empty_schema : Schema
empty_schema = record { tables = []; indexes = [] }

pub data Operation : Type 0 where
  create_table : Table → Operation
  drop_table : Text → Operation
  create_index : Index → Operation
  drop_index : Text → Operation
  add_column : Text → Column → Operation
  drop_column : Text → Text → Operation

abbrev pub has_table : Text → List Table → Bool
has_table name = any (λ (t : Table). t.name == name)

abbrev pub has_index : Text → List Index → Bool
has_index name = any (λ (i : Index). i.name == name)

abbrev pub has_column : Text → Table → Bool
has_column name t = any (λ (c : Column). c.name == name) t.columns

-- The tables that the foreign keys name.
unfoldable pub references : List Constraint → List Text
references [] = []
references (foreign_key _ table _ ∷ rest) = table ∷ references rest
references (check _ _ ∷ rest) = references rest
references (primary_key _ ∷ rest) = references rest
references (unique_columns _ _ ∷ rest) = references rest

abbrev pub refers_to : Text → Table → Bool
refers_to name t = any (λ (r : Text). r == name) (references t.constraints)

unfoldable pub all_there : List Table → List Text → Bool
all_there tables [] = true
all_there tables (name ∷ names) = has_table name tables && all_there tables names

abbrev pub put_column : Text → Column → Table → Table
put_column table c t = if t.name == table then record t { columns = c ∷ t.columns } else t

abbrev pub take_column : Text → Text → Table → Table
take_column table name t =
    if t.name == table
    then record t { columns = filter (λ (c : Column). not (c.name == name)) t.columns }
    else t

abbrev pub is_column_of : Text → Text → Table → Bool
is_column_of table name t = t.name == table && has_column name t

-- Dropping a table takes its indexes along, and is refused while another table refers to it.
unfoldable pub run_operation : Operation → Schema → Option Schema
unfolding all_there references
run_operation (create_table t) s =
    if has_table t.name s.tables || not (all_there (t ∷ s.tables) (references t.constraints))
    then none
    else some (record s { tables = t ∷ s.tables })
run_operation (drop_table name) s =
    let kept = filter (λ (t : Table). not (t.name == name)) s.tables in
    if not (has_table name s.tables) || any (refers_to name) kept
    then none
    else some (record {
      tables = kept;
      indexes = filter (λ (i : Index). not (i.table == name)) s.indexes;
    })
run_operation (create_index i) s =
    if has_index i.name s.indexes || not (has_table i.table s.tables)
    then none
    else some (record s { indexes = i ∷ s.indexes })
run_operation (drop_index name) s =
    if not (has_index name s.indexes)
    then none
    else some (record s { indexes = filter (λ (i : Index). not (i.name == name)) s.indexes })
run_operation (add_column table c) s =
    if not (has_table table s.tables) || any (is_column_of table c.name) s.tables
    then none
    else some (record s { tables = map (put_column table c) s.tables })
run_operation (drop_column table name) s =
    if not (any (is_column_of table name) s.tables)
    then none
    else some (record s { tables = map (take_column table name) s.tables })

unfoldable pub run : List Operation → Schema → Option Schema
unfolding run_operation
run [] s = some s
run (op ∷ ops) s = elim (run_operation op s) [ some s' ↦ run ops s' | none ↦ none ]
