-- ===== src/Logstream/Ring.antt =====
-- The log ring of internal/logstream/ring.go. Ids are int64 values, so they are integers, and the
-- increment of an id wraps. Indices are never negative, so they are natural numbers. The mutex
-- makes each method one step. Texts are valid UTF-8, as the JSON log handler writes them.
pub mod Valid
pub mod Order
pub mod Read
pub mod Runs
use Prim.Native.String.{len, slice}
use Prim.Native.String.{◌++◌ as append}
use rapido_go.Prelude.{
  ℕ, ◌+◌, ◌-◌, ◌*◌, ◌%◌, ℤ, pos, pos_part, String, Bool, List, ltb, ltb_ℤ, leb_ℤ, ◌+ℤ◌, int64,
  length, set, replicate, if◌then◌else◌,
}
use rapido_go.Prelude.Circular.{at_circular, window}
use rapido_go.Prelude.Search.{search}

abbrev pub ring_size : ℕ
ring_size = 2000

abbrev pub max_line_bytes : ℕ
max_line_bytes = 16 * 1024

pub record Entry : Type 0 where
  pub id : ℤ
  pub ts : String
  pub level : String
  pub line : String

-- The zero value of `Entry`.
abbrev pub zero_entry : Entry
zero_entry = record { id = pos 0; ts = ""; level = ""; line = "" }

-- What the code reads off a time.Time: IsZero, UnixMicro and the RFC3339Nano text in UTC.
pub record Instant : Type 0 where
  pub is_zero : Bool
  pub unix_micro : ℤ
  pub rfc3339 : String

pub record Ring : Type 0 where
  pub buf : List Entry
  pub start : ℕ
  pub n : ℕ
  pub last_id : ℤ

-- `NewRing`
pub new_ring : ℤ → Ring
new_ring capacity =
    let size = if ltb_ℤ capacity (pos 1) then ring_size else pos_part capacity in
    record { buf = replicate size zero_entry; start = 0; n = 0; last_id = pos 0 }

-- The stored text of a line: strings.ToValidUTF8 drops the character that the cut splits.
unfoldable pub clip : String → String
clip line =
    if ltb max_line_bytes (len line) then append (slice line 0 max_line_bytes) "..." else line

unfoldable pub next_id : ℤ → ℤ → ℤ
next_id id last = if leb_ℤ id last then int64 (last +ℤ pos 1) else id

unfoldable pub make_entry : ℤ → Instant → Instant → String → String → Entry
make_entry last now t level line =
    let t' = if t.is_zero then now else t in
    record { id = next_id t'.unix_micro last; ts = t'.rfc3339; level = level; line = clip line }

unfoldable pub store : Ring → Entry → Ring
store r e =
    if ltb r.n (length r.buf)
    then record r {
      buf = set r.buf ((r.start + r.n) % length r.buf) e;
      n = r.n + 1;
      last_id = e.id;
    }
    else record r {
      buf = set r.buf r.start e;
      start = (r.start + 1) % length r.buf;
      last_id = e.id;
    }

-- `Add`: `now` is the clock at the call.
unfoldable pub add : Ring → Instant → Instant → String → String → Ring × Entry
add r now t level line = let e = make_entry r.last_id now t level line in (store r e, e)

-- `at`
abbrev pub at : Ring → ℕ → Entry
at r i = at_circular zero_entry r.buf r.start i

-- for i := range out { out[i] = r.at(first + i) }
abbrev pub entries_from : Ring → ℕ → ℕ → List Entry
entries_from r first count = window zero_entry r.buf r.start first count

-- `After`
unfoldable pub after : Ring → ℤ → ℤ → List Entry
after r bound limit =
    let first = search r.n (λ i. ltb_ℤ bound (at r i).id) in
    let count = r.n - first in
    entries_from r first (
      if ltb_ℤ (pos 0) limit
      then if ltb (pos_part limit) count then pos_part limit else count
      else count)

-- `Tail`
unfoldable pub tail : Ring → ℤ → List Entry
tail r m =
    let count = if ltb_ℤ (pos r.n) m then r.n else if leb_ℤ m (pos 0) then r.n else pos_part m in
    entries_from r (r.n - count) count
