-- ===== src/Pgdump/Copy.antt =====
-- Headers of statements, and the blocks of a dump. `trim_left` of a list of columns takes spaces.
use rapido_go.Prelude.{
  ℕ, zero, suc, Bool, true, ◌&&◌, ◌||◌, ◌==◌, nat_eq, Option, none, some, List, [], ◌∷◌, ◌++◌,
  length, map, Assoc, lookup, insert, put_first, if◌then◌else◌,
}
use rapido_go.Prelude.Bytes.{Bytes, bytes, bytes_eq, is_same, trim_space, strip_prefix, has_prefix}
use rapido_go.Pgdump.{Cells, read_ident, parse_copy_row}

-- Whether a text ends with another one.
abbrev pub has_suffix : Bytes → Bytes → Bool
has_suffix suffix [] = is_same suffix []
has_suffix suffix (c ∷ s) = is_same suffix (c ∷ s) || has_suffix suffix s

abbrev pub skip_spaces : Bytes → Bytes
skip_spaces [] = []
skip_spaces (c ∷ s) = let rest = skip_spaces s in if c == b' ' then rest else c ∷ s

-- What follows one byte at the front.
abbrev pub behind : ℕ → Bytes → Option Bytes
behind c [] = none
behind c (d ∷ s) = if d == c then some s else none

-- The identifier behind a dot, where the schema is public.
abbrev pub named_in : Bytes → Option Bytes → Option (Bytes × Bytes)
named_in schema none = none
named_in schema (some s) = if schema == bytes "public" then read_ident s else none

abbrev pub qualified : Option (Bytes × Bytes) → Option (Bytes × Bytes)
qualified none = none
qualified (some (schema, rest)) = named_in schema (behind b'.' rest)

abbrev pub name_of : Option (Bytes × Bytes) → Option Bytes
name_of none = none
name_of (some (name, rest)) = some name

-- `publicTableName`
abbrev pub public_table_name : Bytes → Option Bytes
public_table_name s = name_of (qualified (read_ident s))

abbrev pub cut_comma : Bytes → Bytes
cut_comma [] = []
cut_comma (c ∷ s) = if c == b',' then s else c ∷ s

abbrev pub with_column : Bytes → Option (List Bytes) → Option (List Bytes)
with_column col none = none
with_column col (some cols) = some (col ∷ cols)

abbrev pub column_at : (Bytes → Option (List Bytes)) → Option (Bytes × Bytes) → Option (List Bytes)
column_at loop none = none
column_at loop (some (col, after)) = with_column col (loop (cut_comma (skip_spaces after)))

-- The loop over the columns; each round reads at least the byte of an identifier.
unfoldable pub read_columns : ℕ → Bytes → Option (List Bytes)
read_columns zero list = none
read_columns (suc fuel) [] = some []
read_columns (suc fuel) (c ∷ s) = column_at (read_columns fuel) (read_ident (skip_spaces (c ∷ s)))

-- The text up to its last closing parenthesis.
abbrev pub cons_to : ℕ → Option Bytes → Option Bytes
cons_to c none = if c == b')' then some [] else none
cons_to c (some s) = some (c ∷ s)

abbrev pub to_last_paren : Bytes → Option Bytes
to_last_paren [] = none
to_last_paren (c ∷ s) = cons_to c (to_last_paren s)

abbrev pub columns_of : Bytes → Option Bytes → Option (Bytes × List Bytes)
columns_of name none = none
columns_of name (some list) = with_name name (read_columns (suc (length list)) list)
  where
    with_name : Bytes → Option (List Bytes) → Option (Bytes × List Bytes)
    with_name name none = none
    with_name name (some cols) = some (name, cols)

abbrev pub listed : Option Bytes → Option Bytes
listed none = none
listed (some s) = to_last_paren s

abbrev pub header_of : Option (Bytes × Bytes) → Option (Bytes × List Bytes)
header_of none = none
header_of (some (name, rest)) =
    let trimmed = trim_space rest in
    if has_suffix (bytes "FROM stdin;") trimmed
    then columns_of name (listed (behind b'(' trimmed))
    else none

abbrev pub or_all : Bytes → Option Bytes → Bytes
or_all s none = s
or_all s (some rest) = rest

-- strings.TrimPrefix
abbrev pub trim_prefix : Bytes → Bytes → Bytes
trim_prefix s prefix = or_all s (strip_prefix prefix s)

-- `parseCopyHeader`
unfoldable pub parse_copy_header : Bytes → Option (Bytes × List Bytes)
parse_copy_header line = header_of (qualified (read_ident (trim_prefix line (bytes "COPY "))))

pub record PgTable : Type 0 where
  pub name : Bytes
  pub columns : List Bytes
  pub rows : List Cells

-- A set of names, and the tables kept.
pub record PgDump : Type 0 where
  pub created : Assoc Bytes Bool
  pub tables : Assoc Bytes PgTable

-- Where the reader is: outside of a block, in one that is kept, in one that is skipped.
pub data Place : Type 0 where
  outside : Place
  copying : PgTable → Place
  skipping : Place

pub record Reading : Type 0 where
  pub dump : PgDump
  pub place : Place

pub data PgError : Type 0 where
  bad_row : PgError
  truncated : PgError
  unreadable : PgError

pub data Result {ℓ} (A : Type ℓ) : Type ℓ where
  done : A → Result A
  fails : PgError → Result A

abbrev pub create_prefix : Bytes
create_prefix = bytes "CREATE TABLE "

abbrev pub copy_prefix : Bytes
copy_prefix = bytes "COPY "

abbrev pub copy_suffix : Bytes
copy_suffix = bytes " FROM stdin;"

abbrev pub end_of_block : Bytes
end_of_block = b'\\' ∷ b'.' ∷ []

abbrev pub note_created : PgDump → Option Bytes → PgDump
note_created d none = d
note_created d (some name) = record d { created = insert name true d.created }

abbrev pub begin_copy : (Bytes → Bool) → PgDump → Option (Bytes × List Bytes) → Reading
begin_copy want d none = record { dump = d; place = skipping }
begin_copy want d (some (name, cols)) =
    let t : PgTable = record { name = name; columns = cols; rows = [] } in
    if want name
    then record { dump = record d { tables = insert name t d.tables }; place = copying t }
    else record { dump = d; place = skipping }

-- A row put at the end of the table that the block fills; the dump holds the same table.
abbrev pub put_row : PgDump → PgTable → Option Cells → Result Reading
put_row d t none = fails bad_row
put_row d t (some row) =
    let grown : PgTable = record t { rows = t.rows ++ (row ∷ []) } in
    done
      (record { dump = record d { tables = insert t.name grown d.tables }; place = copying grown })

-- One line of `ParsePgDump`.
unfoldable pub read_line : (Bytes → Bool) → PgDump → Place → Bytes → Result Reading
read_line want d (copying t) body =
    if body == end_of_block
    then done (record { dump = d; place = outside })
    else put_row d t (parse_copy_row body (length t.columns))
read_line want d skipping body =
    done (record { dump = d; place = if body == end_of_block then outside else skipping })
read_line want d outside body =
    if has_prefix create_prefix body
    then done (record {
      dump = note_created d (public_table_name (trim_prefix body create_prefix));
      place = outside;
    })
    else if has_prefix copy_prefix body && has_suffix copy_suffix body
    then done (begin_copy want d (parse_copy_header body))
    else done (record { dump = d; place = outside })

abbrev pub finish_at : PgDump → Place → Result PgDump
finish_at d outside = done d
finish_at d skipping = fails truncated
finish_at d (copying t) = fails truncated

abbrev pub at_end : Bool → PgDump → Place → Result PgDump
at_end broken d p = if broken then fails unreadable else finish_at d p

-- `loop` reads the lines that are left.
abbrev pub next_lines : (PgDump → Place → Result PgDump) → Result Reading → Result PgDump
next_lines loop (fails e) = fails e
next_lines loop (done r) = loop r.dump r.place

unfoldable pub read_lines : (Bytes → Bool) → Bool → List Bytes → PgDump → Place → Result PgDump
unfolding read_line
read_lines want broken [] d p = at_end broken d p
read_lines want broken (line ∷ lines) d p =
    next_lines (read_lines want broken lines) (read_line want d p line)

-- `ParsePgDump`; `broken` says that the reader ends with an error.
unfoldable pub parse_pg_dump : (Bytes → Bool) → Bool → List Bytes → Result PgDump
unfolding read_lines
parse_pg_dump want broken lines =
    read_lines want broken lines (record { created = []; tables = [] }) outside

abbrev pub cell_map : List Bytes → Cells → Assoc Bytes (Option Bytes)
cell_map [] row = []
cell_map (col ∷ cols) [] = []
cell_map (col ∷ cols) (v ∷ row) = put_first col v (cell_map cols row)

abbrev pub rows_of : Option PgTable → Option (List (Assoc Bytes (Option Bytes)))
rows_of none = none
rows_of (some t) = some (map (cell_map t.columns) t.rows)

-- `PgDump.Rows`
unfoldable pub rows_in : PgDump → Bytes → Option (List (Assoc Bytes (Option Bytes)))
rows_in d table = rows_of (lookup table d.tables)
