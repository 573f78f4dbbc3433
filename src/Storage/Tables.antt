-- ===== src/Storage/Tables.antt =====
-- backend/internal/storage/tables.go: the qualified names of the tables.
use Prim.Native.Char.{code}
use logarithm.Prelude.{
  ℕ, String, ◌≡◌, refl, ap, inl, inr, Bool, true, false, not, ◌&&◌, ◌||◌, Option, none, some, List,
  [], ◌∷◌, map, str_eq, eq_iff, leb, ◌==◌, if◌then◌else◌, Bool-cases, Result, ◌>>=◌, ok, err,
}
use logarithm.Prelude.Text.{concat}

abbrev pub table_logs : String
table_logs = "logs"

abbrev pub table_metrics : String
table_metrics = "metrics"

abbrev pub table_metrics_1m : String
table_metrics_1m = "metrics_1m"

abbrev pub table_service_registry : String
table_service_registry = "service_registry"

abbrev pub table_jetstream_consumer_metrics : String
table_jetstream_consumer_metrics = "jetstream_consumer_metrics"

abbrev pub all_tables : List String
all_tables =
    table_logs ∷ table_metrics ∷ table_metrics_1m ∷ table_service_registry
    ∷ table_jetstream_consumer_metrics ∷ []

-- [a-zA-Z_]
is_name_start : ℕ → Bool
is_name_start c = (leb b'a' c && leb c b'z') || (leb b'A' c && leb c b'Z') || c == b'_'

-- [a-zA-Z0-9_]*$
is_name_rest : String → Bool
unfolding is_name_start
is_name_rest String.[] = true
is_name_rest (String.◌∷◌ c s) =
    (is_name_start (code c) || (leb b'0' (code c) && leb (code c) b'9')) && is_name_rest s

-- ^[a-zA-Z_][a-zA-Z0-9_]*$
unfoldable pub is_valid_table_name : String → Bool
unfolding is_name_rest
is_valid_table_name String.[] = false
is_valid_table_name (String.◌∷◌ c s) = is_name_start (code c) && is_name_rest s

abbrev pub Tables : Type 0
Tables = List (String × String)

unfoldable pub init_tables_loop : String → List String → Result Tables
unfolding is_valid_table_name
init_tables_loop db_name [] = ok []
init_tables_loop db_name (t ∷ ts) =
    let rest = init_tables_loop db_name ts in
    if not (is_valid_table_name t)
    then err (concat ("invalid table name: " ∷ t ∷ []))
    else do tables ← rest; ok ((t, concat (db_name ∷ "." ∷ t ∷ [])) ∷ tables)

unfoldable pub init_tables : String → Result Tables
unfolding init_tables_loop
init_tables db_name = init_tables_loop db_name all_tables

unfoldable pub find_table : String → Tables → Option String
find_table name [] = none
find_table name ((n, t) ∷ tables) = if str_eq n name then some t else find_table name tables

-- `table` of backend/internal/storage/clickhouse.go
unfoldable pub table : Tables → String → Result String
unfolding find_table
table tables name = elim (find_table name tables) [
  | none ↦ err (concat ("unknown table: " ∷ name ∷ []))
  | some t ↦ ok t
]

abbrev pub contains : String → List String → Bool
contains name [] = false
contains name (t ∷ ts) = str_eq t name || contains name ts

abbrev qualified : String → List String → Tables
qualified db_name = map λ t. (t, concat (db_name ∷ "." ∷ t ∷ []))

init_tables_lem : (db_name : String) → init_tables db_name ≡ ok (qualified db_name all_tables)
unfolding init_tables
init_tables_lem db_name = refl

find_table-qualified :
    (db_name name : String) (ts : List String)
    → find_table name (qualified db_name ts)
      ≡ (if contains name ts then some (concat (db_name ∷ "." ∷ name ∷ [])) else none)
unfolding find_table
find_table-qualified db_name name [] = refl
find_table-qualified db_name name (t ∷ ts) = elim (Bool-cases (str_eq t name)) [
  | inl hit ↦ rw hit (ap (λ n. some (concat (db_name ∷ "." ∷ n ∷ []))) ((eq_iff t name).0 hit))
  | inr miss ↦ rw miss (find_table-qualified db_name name ts)
]

-- With the tables that a database starts with, each of their names stands for that table of the
-- database, and every other name is refused.
pub table-init_tables :
    (db_name name : String)
    → (init_tables db_name >>= λ tables. table tables name) ≡ (
        if contains name all_tables
        then ok (concat (db_name ∷ "." ∷ name ∷ []))
        else err (concat ("unknown table: " ∷ name ∷ [])))
unfolding table
table-init_tables db_name name = rw init_tables_lem (elim (Bool-cases (contains name all_tables)) [
  | inl known ↦ rw (known, table, find_table-qualified db_name name all_tables, known)
  | inr unknown ↦ rw (unknown, table, find_table-qualified db_name name all_tables, unknown)
])
