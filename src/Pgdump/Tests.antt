-- ===== src/Pgdump/Tests.antt =====
-- A small dump of Postgres.
use rapido_go.Prelude.{
  Bool, true, false, Option, none, some, List, [], ◌∷◌, ◌++◌, map, Assoc, ◌≡◌, refl,
}
use rapido_go.Prelude.Bytes.{Bytes, bytes}
use rapido_go.Pgdump.{unescape, unescape_copy_field, parse_copy_row, read_quoted, read_ident}
use rapido_go.Pgdump.Copy.{
  PgTable, PgDump, outside, copying, Result, done, fails, end_of_block, read_line, read_lines,
  read_columns, parse_copy_header, parse_pg_dump, rows_in,
}
use rapido_go.Pgdump.Blocks.{Line, line_of, Grown, NotDone, read_lines-write, read_lines_truncated}

abbrev keep_all : Bytes → Bool
keep_all name = true

abbrev users : PgTable
users = record { name = bytes "users"; columns = bytes "id" ∷ bytes "note" ∷ []; rows = [] }

abbrev empty : PgDump
empty = record { created = []; tables = (bytes "users", users) ∷ [] }

abbrev two_lines : List Line
two_lines = (some (bytes "1"), some (bytes "a\tb\\") ∷ []) ∷ (some (bytes "2"), none ∷ []) ∷ []

read_lines-write_example :
    (e : PgDump) × (read_lines keep_all false
        (map line_of two_lines ++ (end_of_block ∷ []))
        empty
        (copying users)
      ≡ read_lines keep_all false [] e outside)
    × Grown empty users two_lines e
read_lines-write_example =
    read_lines-write keep_all false two_lines [] empty users (refl, (refl, tt)) refl

read_lines_truncated_example :
    NotDone keep_all false (read_lines keep_all false (bytes "1\t2" ∷ []) empty (copying users))
read_lines_truncated_example =
    read_lines_truncated keep_all false (bytes "1\t2" ∷ []) empty (copying users) (refl, tt) tt

abbrev dump : List Bytes
dump =
    bytes "CREATE TABLE public.users ("
    ∷ bytes ");"
    ∷ bytes "COPY public.users (id, \"no\"\"te\") FROM stdin;"
    ∷ bytes "1\ta\\tb"
    ∷ bytes "2\t\\N"
    ∷ end_of_block
    ∷ []

abbrev users_of : Result PgDump → Option (List (Assoc Bytes (Option Bytes)))
users_of (done d) = rows_in d (bytes "users")
users_of (fails e) = none

parsed_dump :
    users_of (parse_pg_dump keep_all false dump)
    ≡ some (
        ((bytes "id", some (bytes "1")) ∷ (bytes "no\"te", some (bytes "a\tb")) ∷ [])
        ∷ ((bytes "id", some (bytes "2")) ∷ (bytes "no\"te", none) ∷ [])
        ∷ [])
unfolding parse_pg_dump read_lines read_line parse_copy_header read_columns read_ident read_quoted
    parse_copy_row unescape_copy_field unescape rows_in
parsed_dump = refl
