-- ===== src/Mysqldump/Dump.antt =====
-- Whole dumps, and the headers of their statements. A reader is the lines that ReadString gives,
-- then its end or an error.
use rapido_go.Prelude.{
  ℕ, zero, suc, Bool, ◌==◌, nat_eq, Option, none, some, List, [], ◌∷◌, ◌++◌, map, length, Assoc,
  lookup, insert, put_first, if◌then◌else◌,
}
use rapido_go.Prelude.Bytes.{strip_prefix, has_prefix, Bytes, bytes, bytes_eq, trim_space}
use rapido_go.Mysqldump.{Value, Scan, ok, failed, stuck, ScanError, Row, parse_values_tuples}

abbrev pub backtick : ℕ
backtick = b'`'

abbrev pub first_of {ℓ} : {A : Type ℓ} → Option A → Option A → Option A
first_of none o = o
first_of (some a) o = some a

-- strings.Index, with what follows the first occurrence.
abbrev pub after_first : Bytes → Bytes → Option Bytes
after_first p [] = strip_prefix p []
after_first p (c ∷ s) = first_of (strip_prefix p (c ∷ s)) (after_first p s)

abbrev pub cons_first : ℕ → Option (Bytes × Bytes) → Option (Bytes × Bytes)
cons_first c none = none
cons_first c (some (name, rest)) = some (c ∷ name, rest)

-- A name up to its backtick, and what follows it.
abbrev pub until_backtick : Bytes → Option (Bytes × Bytes)
until_backtick [] = none
until_backtick (c ∷ s) =
    let rest = until_backtick s in if c == backtick then some ([], s) else cons_first c rest

abbrev pub name_of : Option (Bytes × Bytes) → Option Bytes
name_of none = none
name_of (some (name, rest)) = some name

abbrev pub name_behind : Option Bytes → Option Bytes
name_behind none = none
name_behind (some rest) = name_of (until_backtick rest)

-- `extractBacktickName`
abbrev pub extract_backtick_name : Bytes → Bytes → Option Bytes
extract_backtick_name s prefix = name_behind (after_first prefix s)

abbrev pub values_behind : Bytes → Option Bytes → Option (Bytes × Bytes)
values_behind table none = none
values_behind table (some rest) = some (table, rest)

abbrev pub header_behind : Option (Bytes × Bytes) → Option (Bytes × Bytes)
header_behind none = none
header_behind (some (table, tail)) = values_behind table (after_first (bytes "VALUES") tail)

abbrev pub insert_prefix : Bytes
insert_prefix = bytes "INSERT INTO `"

abbrev pub create_prefix : Bytes
create_prefix = bytes "CREATE TABLE `"

abbrev pub named_behind : Option Bytes → Option (Bytes × Bytes)
named_behind none = none
named_behind (some rest) = header_behind (until_backtick rest)

-- `parseInsertHeader`
abbrev pub parse_insert_header : Bytes → Option (Bytes × Bytes)
parse_insert_header line = named_behind (strip_prefix insert_prefix line)

pub data DumpError : Type 0 where
  malformed_create : DumpError
  eof_in_create : DumpError
  unreadable : DumpError
  bad_values : ScanError → DumpError
  no_fuel : DumpError

pub data Result {ℓ} (A : Type ℓ) : Type ℓ where
  done : A → Result A
  fails : DumpError → Result A

abbrev pub add_column : Bytes → List Bytes → List Bytes
add_column line cols =
    if has_prefix (bytes "`") line then with_name (extract_backtick_name line (bytes "`")) else cols
  where
    with_name : Option Bytes → List Bytes
    with_name none = cols
    with_name (some col) = cols ++ (col ∷ [])

-- The loop of `parseCreateTable` over the lines behind the first one.
abbrev pub read_columns : Bool → List Bytes → List Bytes → Result (List Bytes × List Bytes)
read_columns broken cols [] = fails (if broken then unreadable else eof_in_create)
read_columns broken cols (line ∷ lines) =
    let trimmed = trim_space line in
    let rest = read_columns broken (add_column trimmed cols) lines in
    if has_prefix (bytes ")") trimmed then done (cols, lines) else rest

abbrev pub with_table :
    Bytes → Result (List Bytes × List Bytes) → Result (Bytes × List Bytes × List Bytes)
with_table name (done (cols, rest)) = done (name, cols, rest)
with_table name (fails e) = fails e

abbrev pub columns_behind :
    Bool → List Bytes → Option Bytes → Result (Bytes × List Bytes × List Bytes)
columns_behind broken lines none = fails malformed_create
columns_behind broken lines (some name) = with_table name (read_columns broken [] lines)

-- `parseCreateTable`: the name, the columns and the lines left.
unfoldable pub parse_create_table :
    Bool → Bytes → List Bytes → Result (Bytes × List Bytes × List Bytes)
parse_create_table broken first lines =
    columns_behind broken lines (extract_backtick_name first create_prefix)

module _ {F : Type 0} (parse_float : Bytes → Option F) where
  pub record Table : Type 0 where
    pub name : Bytes
    pub columns : List Bytes
    pub rows : List (Row parse_float)

  abbrev pub Dump : Type 0
  Dump = Assoc Bytes Table

  abbrev pub add_rows_to : Bytes → List (Row parse_float) → Dump → Option Table → Dump
  add_rows_to name rows dump none = dump
  add_rows_to name rows dump (some t) = insert name (record t { rows = t.rows ++ rows }) dump

  -- A table that was not declared has its rows skipped.
  abbrev pub add_rows : Bytes → List (Row parse_float) → Dump → Dump
  add_rows name rows dump = add_rows_to name rows dump (lookup name dump)

  abbrev pub Loop : Type 0
  Loop = List Bytes → Dump → Result Dump

  abbrev pub created : Loop → Dump → Result (Bytes × List Bytes × List Bytes) → Result Dump
  created loop dump (done (name, cols, lines)) =
      loop lines (insert name (record { name = name; columns = cols; rows = [] }) dump)
  created loop dump (fails e) = fails e

  abbrev pub rows_read :
      Loop → Dump → List Bytes → Bytes → Scan (List (Row parse_float)) → Result Dump
  rows_read loop dump lines name (ok rows) = loop lines (add_rows name rows dump)
  rows_read loop dump lines name (failed e) = fails (bad_values e)
  rows_read loop dump lines name stuck = fails no_fuel

  abbrev pub inserted : Loop → Dump → List Bytes → Option (Bytes × Bytes) → Result Dump
  inserted loop dump lines none = loop lines dump
  inserted loop dump lines (some (name, rest)) =
      rows_read loop dump lines name (parse_values_tuples parse_float rest)

  -- One round of `ParseMySQLDump`.
  abbrev pub statement : Bool → Loop → Dump → Bytes → List Bytes → Result Dump
  statement broken loop dump trimmed lines =
      if has_prefix create_prefix trimmed
      then created loop dump (parse_create_table broken trimmed lines)
      else if has_prefix insert_prefix trimmed
      then inserted loop dump lines (parse_insert_header trimmed)
      else loop lines dump

  abbrev pub parse_lines : Bool → ℕ → List Bytes → Dump → Result Dump
  parse_lines broken zero lines dump = fails no_fuel
  parse_lines broken (suc fuel) [] dump = if broken then fails unreadable else done dump
  parse_lines broken (suc fuel) (line ∷ lines) dump =
      statement broken (parse_lines broken fuel) dump (trim_space line) lines

  -- `ParseMySQLDump`; `broken` says that the reader ends with an error.
  unfoldable pub parse_mysql_dump : Bool → List Bytes → Result Dump
  parse_mysql_dump broken lines = parse_lines broken (suc (length lines)) lines []

  -- The values of a row under the names of its columns.
  abbrev pub row_map : List Bytes → Row parse_float → Assoc Bytes (Value F)
  row_map [] r = []
  row_map (col ∷ cols) [] = []
  row_map (col ∷ cols) (v ∷ r) = put_first col v (row_map cols r)

  abbrev pub rows_of : Option Table → Option (List (Assoc Bytes (Value F)))
  rows_of none = none
  rows_of (some t) = some (map (row_map t.columns) t.rows)

  -- `MySQLDump.Row`
  unfoldable pub row : Dump → Bytes → Option (List (Assoc Bytes (Value F)))
  row dump table = rows_of (lookup table dump)
