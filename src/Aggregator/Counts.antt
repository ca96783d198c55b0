-- ===== src/Aggregator/Counts.antt =====
-- The flushed lines and the totals count every dropped line once.
use rapido_go.Prelude.{
  ℕ, ◌+◌, ◌<◌, ◌^◌, ℤ, pos, pos_part, ◌+ℤ◌, ◌-ℤ◌, int64, int64_up, int64_small, String, string_eq,
  eq_iff, ◌==◌, Option, none, some, List, [], ◌∷◌, Assoc, lookup, lookup-insert, length,
  if◌then◌else◌, ◌≡◌, refl, sym, ap, ◌∙◌, arith, Bool-cases, inl, inr,
}
use rapido_go.Prelude.Keys.{DistinctKeys, insert-DistinctKeys}
use rapido_go.Prelude.Sorted.{lookup-insert_sorted}
use rapido_go.Aggregator.{
  Aggregator, new_aggregator, count_of, increment, count, totals, Line, sort_kinds, line_of, flush,
}

lookup-sort_kinds :
    (m : Assoc String ℤ) (u : String) → DistinctKeys m → lookup u (sort_kinds m) ≡ lookup u m
unfolding sort_kinds
lookup-sort_kinds [] u h = refl
lookup-sort_kinds ((k, n) ∷ m) u h =
    lookup-insert_sorted k n (sort_kinds m) u (lookup-sort_kinds m k h.1 ∙ h.0)
    ∙ ground (arith, lookup-sort_kinds m u h.1)

-- What a map counts for a kind.
abbrev pub figure : String → Assoc String ℤ → ℤ
figure k m = count_of (lookup k m)

figure-increment :
    (k kind : String) (m : Assoc String ℤ) (n : ℕ)
    → n + 1 < 2 ^ 63
    → figure k m ≡ pos n
    → figure k (increment kind m) ≡ pos (if kind == k then n + 1 else n)
figure-increment k kind m n small h = elim (Bool-cases (kind == k)) [
  | inl e ↦
      let same : kind ≡ k = (eq_iff kind k).0 e in
      rw (lookup-insert kind k (int64 (count_of (lookup kind m) +ℤ pos 1)) m) (
        rw e (
          rw same (
            ap (λ x. int64 (x +ℤ pos 1)) (h ∙ sym (int64_small n (omega arith)))
            ∙ int64_up n
            ∙ int64_small (n + 1) small)))
  | inr e ↦ rw (lookup-insert kind k (int64 (count_of (lookup kind m) +ℤ pos 1)) m) (rw e h)
]

pub data Event : Type 0 where
  counts : String → Event
  flushes : ℤ → Event

abbrev pub logged : Option Line → List Line → List Line
logged none ls = ls
logged (some l) ls = l ∷ ls

-- The aggregator and the lines that the calls leave, the first line first.
abbrev pub run : List Event → Aggregator → Aggregator × List Line
run [] a = (a, [])
run (counts kind ∷ es) a = run es (count a kind)
run (flushes now ∷ es) a =
    let rest = run es (flush a now).0 in (rest.0, logged (flush a now).1 rest.1)

-- How often a kind was counted.
abbrev pub occurrences : String → List Event → ℕ
occurrences k [] = 0
occurrences k (counts kind ∷ es) =
    let rest = occurrences k es in if kind == k then rest + 1 else rest
occurrences k (flushes now ∷ es) = occurrences k es

-- What the lines say of a kind, all together.
abbrev pub shown : String → List Line → ℕ
shown k [] = 0
shown k (l ∷ ls) = pos_part (figure k l.kinds) + shown k ls

shown-logged :
    (k : String) (elapsed : ℤ) (m : Assoc String ℤ) (ls : List Line)
    → DistinctKeys m
    → shown k (logged (line_of elapsed m) ls) ≡ pos_part (figure k m) + shown k ls
shown-logged k elapsed [] ls h = omega arith
shown-logged k elapsed (p ∷ m) ls h = rw (lookup-sort_kinds (p ∷ m) k h) refl

run_from :
    (k : String) (es : List Event) (a : Aggregator) (w t : ℕ)
    → DistinctKeys a.window
    → figure k a.window ≡ pos w
    → figure k a.total ≡ pos t
    → w + length es < 2 ^ 63
    → t + length es < 2 ^ 63
    → (shown k (run es a).1 + pos_part (figure k (run es a).0.window) ≡ w + occurrences k es)
      × (figure k (totals (run es a).0) ≡ pos (t + occurrences k es))
unfolding count flush
run_from k [] a w t d hw ht sw st = (rw hw (omega arith), ht ∙ ap pos (omega arith))
run_from k (counts kind ∷ es) a w t d hw ht sw st =
    let w' : ℕ = if kind == k then w + 1 else w in
    let t' : ℕ = if kind == k then t + 1 else t in
    let rest =
      run_from k es (count a kind) w' t'
        (insert-DistinctKeys kind (int64 (figure kind a.window +ℤ pos 1)) a.window d)
        (figure-increment k kind a.window w (omega arith) hw)
        (figure-increment k kind a.total t (omega arith) ht) (ground arith) (ground arith) in
    (ground (arith, rest.0), rest.1 ∙ ap pos (ground arith))
run_from k (flushes now ∷ es) a w t d hw ht sw st =
    let rest = run_from k es (flush a now).0 0 t tt refl ht (omega arith) (omega arith) in
    let line = shown-logged k (now -ℤ a.since) a.window (run es (flush a now).0).1 d in
    (rw line (rw hw (omega (arith, rest.0))), rest.1)

-- Over fewer than 2^63 calls of `Count` and `Flush` on a new aggregator, the flushed lines and the
-- window still open together show for each kind how often it was counted, and `Totals` has the
-- same number.
pub run-occurrences :
    (k : String) (es : List Event) (now : ℤ)
    → length es < 2 ^ 63
    → (shown k (run es (new_aggregator now)).1
          + pos_part (figure k (run es (new_aggregator now)).0.window)
        ≡ occurrences k es)
      × (figure k (totals (run es (new_aggregator now)).0) ≡ pos (occurrences k es))
run-occurrences k es now small =
    let rest = run_from k es (new_aggregator now) 0 0 tt refl refl (omega arith) (omega arith) in
    (omega (arith, rest.0), rest.1 ∙ ap pos (omega arith))
