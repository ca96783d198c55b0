-- ===== src/Logstream/Level/Laws.antt =====
-- What the level names of internal/logstream/ring.go promise.
use rapido_go.Prelude.{
  ℕ, ◌≤◌, ◌<◌, ℤ, ◌≤ℤ◌, String, Bool, true, false, ◌≡◌, refl, ap, ◌∙◌, zero, suc, arith,
  if◌then◌else◌,
}
use rapido_go.Logstream.Level.{
  debug, info, warn, error, rank_of, level_rank, name_of, normalize_level, from_slog_level,
}

rank_of-lt : (l : String) → (rank_of l).0 < 4
unfolding rank_of
rank_of-lt l = ground arith

abbrev NamesHaveRanks : Type 0
NamesHaveRanks =
    (rank_of debug ≡ (0, true))
    × (rank_of info ≡ (1, true))
    × (rank_of warn ≡ (2, true))
    × (rank_of error ≡ (3, true))

rank_of_names : NamesHaveRanks
unfolding rank_of
rank_of_names = (refl, refl, refl, refl)

-- Folding leaves the four level names alone.
pub record FoldsNames (fold : String → String) : Type 0 where
  pub at_debug : fold debug ≡ debug
  pub at_info : fold info ≡ info
  pub at_warn : fold warn ≡ warn
  pub at_error : fold error ≡ error

module _ (fold : String → String) (f : FoldsNames fold) where
  level_rank-name_of :
      (q : ℕ × Bool) → q.0 < 4 → level_rank fold (name_of q) ≡ (if q.1 then q else (1, true))
  unfolding level_rank name_of
  level_rank-name_of (rank, false) h = rw (f.at_info, rank_of_names.1)
  level_rank-name_of (zero, true) h = rw (f.at_debug, rank_of_names.0)
  level_rank-name_of (suc zero, true) h = rw (f.at_info, rank_of_names.1)
  level_rank-name_of (suc (suc zero), true) h = rw (f.at_warn, rank_of_names.2)
  level_rank-name_of (suc (suc (suc zero)), true) h = rw (f.at_error, rank_of_names.3)
  level_rank-name_of (suc (suc (suc (suc n))), true) h = absurd (omega arith)

  -- A normalised name has the rank of the name that it stands for, and is ranked as info where
  -- that name is unknown.
  pub level_rank-normalize_level :
      (l : String)
      → level_rank fold (normalize_level fold l)
        ≡ (if (level_rank fold l).1 then level_rank fold l else (1, true))
  unfolding normalize_level
  level_rank-normalize_level l =
      level_rank-name_of (level_rank fold l) (unfold level_rank in rank_of-lt (fold l))

  -- Normalising a second time changes nothing.
  pub normalize_level_idem :
      (l : String) → normalize_level fold (normalize_level fold l) ≡ normalize_level fold l
  normalize_level_idem l =
      unfold normalize_level in
      (ap name_of (level_rank-normalize_level l) ∙ unfold name_of in ground arith)

-- A higher slog level is never filed under a lower name.
pub from_slog_level_mono :
    (l m : ℤ) → l ≤ℤ m → (rank_of (from_slog_level l)).0 ≤ (rank_of (from_slog_level m)).0
unfolding from_slog_level
from_slog_level_mono l m h = ground (arith, rank_of_names)
