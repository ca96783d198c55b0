-- ===== src/Logstream/Level.antt =====
-- Level names of internal/logstream/ring.go. `fold` stands for strings.ToLower after
-- strings.TrimSpace; `lower` and `contains` stand for strings.ToLower and strings.Contains.
pub mod Laws
use rapido_go.Prelude.{
  ℕ, ℤ, pos, String, Bool, true, false, ◌==◌, ◌||◌, ltb_ℤ, if◌then◌else◌, nat_eq, string_eq,
}

abbrev pub debug : String
debug = "debug"

abbrev pub info : String
info = "info"

abbrev pub warn : String
warn = "warn"

abbrev pub error : String
error = "error"

-- `LevelRank`, on the folded name.
pub rank_of : String → ℕ × Bool
rank_of name =
    if name == debug || name == "trace"
    then (0, true)
    else if name == info
    then (1, true)
    else if name == warn || name == "warning"
    then (2, true)
    else if name == error || name == "fatal" || name == "panic"
    then (3, true)
    else (0, false)

unfoldable pub level_rank : (String → String) → String → ℕ × Bool
level_rank fold level = rank_of (fold level)

-- `NormalizeLevel`, on the rank.
pub name_of : ℕ × Bool → String
name_of (rank, known) =
    if known
    then if rank == 0 then debug else if rank == 2 then warn else if rank == 3 then error else info
    else info

unfoldable pub normalize_level : (String → String) → String → String
normalize_level fold level = name_of (level_rank fold level)

-- slog.LevelInfo, slog.LevelWarn and slog.LevelError
abbrev pub slog_info : ℤ
slog_info = pos 0

abbrev pub slog_warn : ℤ
slog_warn = pos 4

abbrev pub slog_error : ℤ
slog_error = pos 8

-- `FromSlogLevel`
unfoldable pub from_slog_level : ℤ → String
from_slog_level l =
    if ltb_ℤ l slog_info
    then debug
    else if ltb_ℤ l slog_warn
    then info
    else if ltb_ℤ l slog_error
    then warn
    else error
