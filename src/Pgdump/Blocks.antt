-- ===== src/Pgdump/Blocks.antt =====
-- A block is read back whole, and a dump that ends inside of one is refused.
use rapido_go.Prelude.{
  ℕ, Bool, true, false, ◌==◌, nat_eq, Option, none, some, List, [], ◌∷◌, ◌++◌, append_assoc,
  append-nil, length, map, All, lookup, insert, if◌then◌else◌, if_false, if_true, if_cases,
  lookup-insert, ◌≡◌, refl, sym, ap, ◌∙◌, arith,
}
use mathlib.Core.Path.{subst}
use rapido_go.Prelude.Bytes.{Bytes, bytes_eq}
use rapido_go.Pgdump.{tab, Cells, parse_copy_row}
use rapido_go.Pgdump.Fields.{
  letter_of, behind_backslash, escape_field, write_row, parse_copy_row-write,
}
use rapido_go.Pgdump.Copy.{
  PgTable, PgDump, Place, outside, copying, skipping, Reading, Result, done, fails, end_of_block,
  put_row, read_line, at_end, next_lines, read_lines,
}

-- The line of a row with a first field.
abbrev pub Line : Type 0
Line = Option Bytes × Cells

abbrev pub line_of : Line → Bytes
line_of (f, fs) = write_row f fs

abbrev pub cells_of : Line → Cells
cells_of (f, fs) = f ∷ fs

differs :
    (c : ℕ) (o : Option ℕ)
    → letter_of c ≡ o
    → (s : Bytes) → (behind_backslash c o s == end_of_block) ≡ false
differs c none e s = ground (arith, e)
differs c (some x) e s = ground (arith, e)

differs_more :
    (c : ℕ) (o : Option ℕ)
    → letter_of c ≡ o
    → (s t : Bytes) → (behind_backslash c o s ++ t == end_of_block) ≡ false
differs_more c none e s t = ground (arith, e)
differs_more c (some x) e s t = ground (arith, e)

not_end : (f : Option Bytes) (fs : Cells) → (write_row f fs == end_of_block) ≡ false
not_end none [] = refl
not_end none (g ∷ fs) = refl
not_end (some []) [] = refl
not_end (some []) (g ∷ fs) = refl
not_end (some (c ∷ s)) [] = differs c (letter_of c) refl (escape_field s)
not_end (some (c ∷ s)) (g ∷ fs) =
    differs_more c (letter_of c) refl (escape_field s) (tab ∷ write_row g fs)

abbrev pub with_row : PgTable → Cells → PgTable
with_row t row = record t { rows = t.rows ++ (row ∷ []) }

abbrev pub with_rows : PgTable → List Line → PgTable
with_rows t ls = record t { rows = t.rows ++ map cells_of ls }

abbrev pub with_table : PgDump → PgTable → PgDump
with_table d t = record d { tables = insert t.name t d.tables }

-- A dump in which a table has more rows, and that is else the same.
abbrev pub Grown : PgDump → PgTable → List Line → PgDump → Type 0
Grown d t ls e =
    (e.created ≡ d.created)
    × ((name : Bytes)
        → lookup name e.tables
          ≡ (if t.name == name then some (with_rows t ls) else lookup name d.tables))

Grown-none : (d : PgDump) (t : PgTable) → lookup t.name d.tables ≡ some t → Grown d t [] d
Grown-none d t h = (
  refl,
  λ name.
      if_cases (λ r. lookup name d.tables ≡ r) (t.name == name) (some (with_rows t []))
        (lookup name d.tables)
        (λ e.
          subst (λ x. lookup x d.tables ≡ some (with_rows t []))
            ((bytes_eq.beq_path t.name name).0 e)
            (h ∙ ap (λ r. some (record t { rows = r })) (sym (append-nil t.rows))))
        (λ e. refl),
)

Grown-more :
    (d e : PgDump) (t : PgTable) (l : Line) (ls : List Line)
    → Grown (with_table d (with_row t (cells_of l))) (with_row t (cells_of l)) ls e
    → Grown d t (l ∷ ls) e
Grown-more d e t l ls (c, g) = (
  c,
  λ name.
      g name
      ∙ if_cases
          (λ r.
            (if t.name == name
              then some (with_rows (with_row t (cells_of l)) ls)
              else lookup name (with_table d (with_row t (cells_of l))).tables)
            ≡ r)
          (t.name == name) (some (with_rows t (l ∷ ls))) (lookup name d.tables)
          (λ p.
            if_true (t.name == name) _ _ p
            ∙ ap (λ r. some (record t { rows = r }))
                (append_assoc t.rows (cells_of l ∷ []) (map cells_of ls)))
          (λ p.
            if_false (t.name == name) _ _ p
            ∙ lookup-insert t.name name (with_row t (cells_of l)) d.tables
            ∙ if_false (t.name == name) _ _ p),
)

module _ (want : Bytes → Bool) (broken : Bool) where
  read_line-write :
      (d : PgDump) (t : PgTable) (l : Line)
      → length (cells_of l) ≡ length t.columns
      → read_line want d (copying t) (line_of l)
        ≡ done (record {
          dump = with_table d (with_row t (cells_of l));
          place = copying (with_row t (cells_of l));
        })
  unfolding read_line
  read_line-write d t (f, fs) h =
      if_false (write_row f fs == end_of_block) _ _ (not_end f fs)
      ∙ ap (put_row d t) (
          subst (λ n. parse_copy_row (write_row f fs) n ≡ some (f ∷ fs)) h
            (parse_copy_row-write f fs))

  -- A block of a table that is kept, as Postgres writes it, puts its rows at the end of the table's,
  -- in order, leaves everything else as it was, and is followed by the lines behind it.
  pub read_lines-write :
      (ls : List Line) (rest : List Bytes) (d : PgDump) (t : PgTable)
      → All (λ l. length (cells_of l) ≡ length t.columns) ls
      → lookup t.name d.tables ≡ some t
      → (e : PgDump) × (read_lines want broken
            (map line_of ls ++ (end_of_block ∷ rest))
            d
            (copying t)
          ≡ read_lines want broken rest e outside)
        × Grown d t ls e
  unfolding read_lines
  read_lines-write [] rest d t h k = (d, refl, Grown-none d t k)
  read_lines-write (l ∷ ls) rest d t h k =
      let grown : PgTable = with_row t (cells_of l) in
      let (e, r, g) = read_lines-write ls rest (with_table d grown) grown h.1 (
        lookup-insert t.name t.name grown d.tables
        ∙ if_true (t.name == t.name) _ _ ((bytes_eq.beq_path t.name t.name).1 refl)) in
      (
        e,
        ap (next_lines (read_lines want broken (map line_of ls ++ (end_of_block ∷ rest))))
              (read_line-write d t l h.0)
            ∙ r,
        Grown-more d e t l ls g,
      )

  abbrev pub InBlock : Place → Type 0
  InBlock outside = ⊥
  InBlock skipping = Unit
  InBlock (copying t) = Unit

  abbrev pub NotDone : Result PgDump → Type 0
  NotDone (done d) = ⊥
  NotDone (fails e) = Unit

  at_end-NotDone : (b : Bool) (d : PgDump) (p : Place) → InBlock p → NotDone (at_end b d p)
  at_end-NotDone true d p h = tt
  at_end-NotDone false d outside h = h
  at_end-NotDone false d skipping h = tt
  at_end-NotDone false d (copying t) h = tt

  abbrev pub StaysIn : Result Reading → Type 0
  StaysIn (done r) = InBlock r.place
  StaysIn (fails e) = Unit

  put_row-StaysIn : (d : PgDump) (t : PgTable) (o : Option Cells) → StaysIn (put_row d t o)
  put_row-StaysIn d t none = tt
  put_row-StaysIn d t (some row) = tt

  read_line-StaysIn :
      (d : PgDump) (p : Place) (body : Bytes)
      → InBlock p
      → (body == end_of_block) ≡ false
      → StaysIn (read_line want d p body)
  unfolding read_line
  read_line-StaysIn d outside body h e = absurd h
  read_line-StaysIn d skipping body h e = rw e tt
  read_line-StaysIn d (copying t) body h e =
      if_cases StaysIn (body == end_of_block) _
        (put_row d t (parse_copy_row body (length t.columns))) (λ f. absurd (ground (arith, e, f)))
        (λ f. put_row-StaysIn d t (parse_copy_row body (length t.columns)))

  next_lines-NotDone :
      (loop : PgDump → Place → Result PgDump) (r : Result Reading)
      → ((d : PgDump) (p : Place) → InBlock p → NotDone (loop d p))
      → StaysIn r
      → NotDone (next_lines loop r)
  next_lines-NotDone loop (done r) k h = k r.dump r.place h
  next_lines-NotDone loop (fails e) k h = tt

  -- A dump that ends inside of a block, kept or skipped, is refused.
  pub read_lines_truncated :
      (lines : List Bytes) (d : PgDump) (p : Place)
      → All (λ l. (l == end_of_block) ≡ false) lines
      → InBlock p
      → NotDone (read_lines want broken lines d p)
  unfolding read_lines
  read_lines_truncated [] d p h k = at_end-NotDone broken d p k
  read_lines_truncated (l ∷ lines) d p h k =
      next_lines-NotDone (read_lines want broken lines) (read_line want d p l)
        (λ e q i. read_lines_truncated lines e q h.1 i) (read_line-StaysIn d p l k h.0)
