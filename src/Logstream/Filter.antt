-- ===== src/Logstream/Filter.antt =====
-- `Entry.Matches` of internal/logstream/ring.go. `fold` stands for strings.ToLower after
-- strings.TrimSpace, `lower` and `contains` for strings.ToLower and strings.Contains.
use rapido_go.Prelude.{
  ℤ, pos, ◌≤ℤ◌, String, Bool, true, false, ◌≡◌, ◌↔◌, ◌⊎◌, arith, ◌==◌, ◌&&◌, ◌||◌, string_eq, ltb_ℤ,
  if◌then◌else◌, eq_iff,
}
use rapido_go.Logstream.Level.{level_rank}
use rapido_go.Logstream.Ring.{Entry}

module _ (fold lower : String → String) (contains : String → String → Bool) where
  pub matches : Entry → ℤ → String → Bool
  matches e min_rank needle =
      if ltb_ℤ (pos 0) min_rank && ltb_ℤ (pos (level_rank fold e.level).0) min_rank
      then false
      else needle == "" || contains (lower e.line) needle

  -- An entry matches exactly when its level has at least the wanted rank, an unknown level counting
  -- as the lowest, and the needle is empty or stands in the lowered line.
  pub matches_iff :
      (e : Entry) (min_rank : ℤ) (needle : String)
      → (matches e min_rank needle ≡ true) ↔ (
          (min_rank ≤ℤ pos (level_rank fold e.level).0)
          × ((needle ≡ "") ⊎ (contains (lower e.line) needle ≡ true)))
  unfolding matches
  matches_iff e min_rank needle = ground (arith, eq_iff needle "")
