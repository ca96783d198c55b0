-- ===== src/Logstream/Tests.antt =====
-- Runs of the log ring and its publisher, and the theorems at concrete rings.
use Prim.Native.String.{len}
use rapido_go.Prelude.{
  ℕ, zero, suc, ◌<ℤ◌, ◌≤◌, ◌+◌, ◌<◌, ℤ, pos, negsuc, ◌≤ℤ◌, String, Bool, true, false, List, [], ◌∷◌,
  ◌++◌, ◌≡◌, refl, ◌↔◌, ◌⊎◌, arith, keep_last, select, if◌then◌else◌,
}
use rapido_go.Prelude.{int64, ◌+ℤ◌}
use rapido_go.Prelude.Search.{search}
use rapido_go.Logstream.Publisher.{Publisher, executed, failed, flush}
use rapido_go.Logstream.Publisher.Flush.{flush_executed, flush_retry}
use rapido_go.Logstream.Publisher.Reports.{TakeTurns, reports, reports-TakeTurns}
use rapido_go.Logstream.Level.{level_rank, rank_of, normalize_level, from_slog_level}
use rapido_go.Logstream.Level.Laws.{FoldsNames, level_rank-normalize_level, from_slog_level_mono}
use rapido_go.Logstream.Filter.{matches, matches_iff}
use rapido_go.Logstream.Ring.{
  Entry, Ring, Instant, new_ring, add, store, make_entry, next_id, clip, at, after, tail, ring_size,
  max_line_bytes,
}
use rapido_go.Logstream.Ring.Read.{after_lem, limited, is_newer}
use rapido_go.Logstream.Ring.Runs.{Call, add_refines, add_all, tail-add_all, add_all-IsOrdered}
use rapido_go.Logstream.Ring.Order.{IsOrdered}
use rapido_go.Logstream.Ring.Valid.{IsValid, contents}

abbrev plain : String → String
plain l = l

abbrev plain_folds : FoldsNames plain
plain_folds = record { at_debug = refl; at_info = refl; at_warn = refl; at_error = refl }

level_rank-normalize_level_example :
    level_rank plain (normalize_level plain "panic")
    ≡ (if (level_rank plain "panic").1 then level_rank plain "panic" else (1, true))
level_rank-normalize_level_example = level_rank-normalize_level plain plain_folds "panic"

from_slog_level_mono_example :
    (rank_of (from_slog_level (negsuc 3))).0 ≤ (rank_of (from_slog_level (pos 4))).0
from_slog_level_mono_example = from_slog_level_mono (negsuc 3) (pos 4) (omega arith)

abbrev line_at : ℤ → String → Entry
line_at i l = record { id = i; ts = ""; level = "warn"; line = l }

matches_iff_example :
    (matches plain plain (λ a b. true) (line_at (pos 1) "x") (pos 2) "x" ≡ true) ↔ (
      (pos 2 ≤ℤ pos (level_rank plain "warn").0)
      × ((◌≡◌ {A = String} "x" "") ⊎ (◌≡◌ {A = Bool} true true)))
matches_iff_example = matches_iff plain plain (λ a b. true) (line_at (pos 1) "x") (pos 2) "x"

abbrev clock : ℤ → Instant
clock i = record { is_zero = false; unix_micro = i; rfc3339 = "" }

-- Three places, of which the oldest entry is at index 1.
abbrev three : Ring
three = record {
  buf = line_at (pos 9) "c" ∷ line_at (pos 7) "a" ∷ line_at (pos 8) "b" ∷ [];
  start = 1;
  n = 3;
  last_id = pos 9;
}

three-IsValid : IsValid three
three-IsValid = omega arith

-- The clock has stepped back, and the ring is full.
add-three :
    contents (add three (clock (pos 5)) (clock (pos 5)) "warn" "d").0
    ≡ line_at (pos 8) "b" ∷ line_at (pos 9) "c" ∷ line_at (pos 10) "d" ∷ []
unfolding add store make_entry next_id clip int64 ◌+ℤ◌
add-three = refl

three_sorted : (i j : ℕ) → i < j → j < 3 → (at three i).id <ℤ (at three j).id
three_sorted i zero h k = absurd (omega arith)
three_sorted zero (suc zero) h k = omega arith
three_sorted (suc i) (suc zero) h k = absurd (omega arith)
three_sorted zero (suc (suc zero)) h k = omega arith
three_sorted (suc zero) (suc (suc zero)) h k = omega arith
three_sorted (suc (suc i)) (suc (suc zero)) h k = absurd (omega arith)
three_sorted i (suc (suc (suc j))) h k = absurd (omega arith)

three_below : (i : ℕ) → i < 3 → (at three i).id ≤ℤ pos 9
three_below zero h = omega arith
three_below (suc zero) h = omega arith
three_below (suc (suc zero)) h = omega arith
three_below (suc (suc (suc i))) h = absurd (omega arith)

three-IsOrdered : IsOrdered three
three-IsOrdered = record { sorted = three_sorted; below = three_below }

add_refines_example :
    let (r', e) = add three (clock (pos 5)) (clock (pos 5)) "warn" "d" in
    IsValid r'
    × (contents r' ≡ keep_last 3 (contents three ++ (e ∷ [])))
    × (r'.last_id ≡ e.id)
    × (len e.line ≤ max_line_bytes + 3)
add_refines_example = add_refines three (clock (pos 5)) (clock (pos 5)) "warn" "d" three-IsValid

abbrev two_calls : List Call
two_calls =
    record { now = clock (pos 5); t = clock (pos 5); level = "info"; line = "x" }
    ∷ record { now = clock (pos 4); t = clock (pos 4); level = "warn"; line = "y" }
    ∷ []

tail-add_all_example :
    let (r, es) = add_all (new_ring (pos 3)) two_calls in
    tail r (pos 1) ≡ keep_last 1 (keep_last 3 es)
tail-add_all_example = tail-add_all (pos 3) two_calls (pos 1) (omega arith) (omega arith)

add_all-IsOrdered_example : IsOrdered (add_all three two_calls).0
add_all-IsOrdered_example =
    add_all-IsOrdered 100 two_calls three (omega arith) (omega arith) three-IsValid three-IsOrdered
      (omega arith) (omega arith)

after_lem_example :
    after three (pos 7) (pos 1) ≡ limited (pos 1) (select (is_newer (pos 7)) (contents three))
after_lem_example = after_lem three three-IsOrdered (pos 7) (pos 1)

after-three : after three (pos 7) (pos 1) ≡ line_at (pos 8) "b" ∷ []
unfolding after search
after-three = refl

abbrev started : Publisher
started = record { last = pos 7; failing = false }

flush_executed_example :
    let f = flush started three executed [] in
    (f.list ≡ keep_last ring_size ([] ++ select (is_newer started.last) (contents three)))
    × (f.err ≡ false)
    × (select (is_newer f.publisher.last) (contents three) ≡ [])
flush_executed_example = flush_executed three three-IsOrdered started [] (λ e. omega arith)

flush_retry_example :
    let f = flush started three (failed 1) [] in
    (flush f.publisher three executed f.list).list
    ≡ keep_last ring_size (f.list ++ select (is_newer started.last) (contents three))
flush_retry_example = flush_retry three three-IsOrdered started 1 [] (omega arith)

reports-TakeTurns_example : TakeTurns false (reports started (true ∷ true ∷ false ∷ true ∷ []))
reports-TakeTurns_example = reports-TakeTurns started (true ∷ true ∷ false ∷ true ∷ [])
