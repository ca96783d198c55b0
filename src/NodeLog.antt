-- ===== src/NodeLog.antt =====
-- StripANSI and ParseLine of internal/nodelog/classify.go, on bytes. The regular
-- expressions are the functions that match them: in each, what may follow a repetition cannot be part
-- of it, so that there is one way to match.
pub mod Capture
pub mod Classify
pub mod Colour
pub mod Prefix
pub mod Tests
use rapido_go.Prelude.{
  ℕ, ◌≤◌, Bool, true, false, not, ◌&&◌, ◌||◌, ◌==◌, nat_eq, Option, none, some, List, [], ◌∷◌, ◌++◌,
  leb, if◌then◌else◌,
}
use rapido_go.Prelude.Bytes.{Bytes, bytes, is_same, strip_prefix}

pub data LogLevel : Type 0 where
  debug : LogLevel
  info : LogLevel
  warn : LogLevel
  error : LogLevel

abbrev pub esc : ℕ
esc = 0x1b

abbrev pub is_digit : ℕ → Bool
is_digit c = leb b'0' c && leb c b'9'

-- [0-9;?], [ -/] and [@-~]
abbrev pub is_param : ℕ → Bool
is_param c = is_digit c || (c == b';') || (c == b'?')

abbrev pub is_inter : ℕ → Bool
is_inter c = leb b' ' c && leb c b'/'

abbrev pub is_final : ℕ → Bool
is_final c = leb b'@' c && leb c b'~'

-- Where the match of `ansiEscape` stands: what it has read is still to be kept where it fails.
pub data Matched : Type 0 where
  outside : Matched
  escaped : Matched
  params : Bytes → Matched
  inters : Bytes → Matched

abbrev pub held_back : Matched → Bytes
held_back outside = []
held_back escaped = esc ∷ []
held_back (params p) = esc ∷ b'[' ∷ p
held_back (inters p) = esc ∷ b'[' ∷ p

-- A byte that does not go on with a match: it may start one.
abbrev pub restart : (Matched → Bytes) → Bytes → ℕ → Bytes
restart loop kept c = if c == esc then kept ++ loop escaped else kept ++ (c ∷ loop outside)

abbrev pub strip_byte : (Matched → Bytes) → Matched → ℕ → Bytes
strip_byte loop outside c = restart loop [] c
strip_byte loop escaped c =
    if c == b'[' then loop (params []) else restart loop (held_back escaped) c
strip_byte loop (params p) c =
    if is_param c
    then loop (params (p ++ (c ∷ [])))
    else if is_inter c
    then loop (inters (p ++ (c ∷ [])))
    else if is_final c
    then loop outside
    else restart loop (held_back (params p)) c
strip_byte loop (inters p) c =
    if is_inter c
    then loop (inters (p ++ (c ∷ [])))
    else if is_final c
    then loop outside
    else restart loop (held_back (inters p)) c

-- ansiEscape.ReplaceAllString(s, "")
unfoldable pub strip_from : Matched → Bytes → Bytes
strip_from m [] = held_back m
strip_from m (c ∷ s) = strip_byte (λ m'. strip_from m' s) m c

abbrev pub has_byte : ℕ → Bytes → Bool
has_byte b [] = false
has_byte b (c ∷ s) = let rest = has_byte b s in (c == b) || rest

-- `StripANSI`
unfoldable pub strip_ansi : Bytes → Bytes
unfolding strip_from
strip_ansi s = if has_byte esc s then strip_from outside s else s

-- `linePrefix`: \d, [+-] or the byte itself
pub data Pattern : Type 0 where
  digit : Pattern
  sign : Pattern
  byte : ℕ → Pattern

abbrev pub fits : Pattern → ℕ → Bool
fits digit c = is_digit c
fits sign c = (c == b'+') || (c == b'-')
fits (byte b) c = c == b

unfoldable pub match_all : List Pattern → Bytes → Option Bytes
match_all [] s = some s
match_all (p ∷ ps) [] = none
match_all (p ∷ ps) (c ∷ s) = let rest = match_all ps s in if fits p c then rest else none

abbrev two : List Pattern → List Pattern
two ps = digit ∷ digit ∷ ps

-- "[+-]\d{4} \d{4}-\d{2}-\d{2} \d{2}:\d{2}:\d{2} "
abbrev pub stamp : List Pattern
stamp =
    let time = two (byte b':' ∷ two (byte b':' ∷ two (byte b' ' ∷ []))) in
    sign ∷ two (two (byte b' ' ∷ two (two (byte b'-' ∷ two (byte b'-' ∷ two (byte b' ' ∷ time))))))

abbrev pub or_all : Bytes → Option Bytes → Bytes
or_all s none = s
or_all s (some rest) = rest

abbrev pub first_name :
    LogLevel → Option Bytes → Option (LogLevel × Bytes) → Option (LogLevel × Bytes)
first_name l none other = other
first_name l (some rest) other = some (l, rest)

-- The name of a level and what follows it.
unfoldable pub level_name : Bytes → Option (LogLevel × Bytes)
level_name s = first_name debug (strip_prefix (bytes "TRACE") s) (
    first_name debug (strip_prefix (bytes "DEBUG") s) (
      first_name info (strip_prefix (bytes "INFO") s) (
        first_name warn (strip_prefix (bytes "WARN") s) (
          first_name error (strip_prefix (bytes "ERROR") s) (
            first_name error (strip_prefix (bytes "FATAL") s)
              (first_name error (strip_prefix (bytes "PANIC") s) none))))))

-- "\d*\] " behind a digit
unfoldable pub close_seconds : Bytes → Option Bytes
close_seconds [] = none
close_seconds (c ∷ s) =
    let rest = close_seconds s in
    if is_digit c then rest else if c == b']' then strip_prefix (bytes " ") s else none

abbrev pub seconds : Bytes → Option Bytes
seconds [] = none
seconds (c ∷ s) = if is_digit c then close_seconds s else none

-- "(?:\[\d+\])? "
abbrev pub behind_level : Bytes → Option Bytes
behind_level [] = none
behind_level (c ∷ s) = if c == b'[' then seconds s else strip_prefix (bytes " ") (c ∷ s)

abbrev pub with_level : LogLevel → Option Bytes → Option (LogLevel × Bytes)
with_level l none = none
with_level l (some text) = some (l, text)

abbrev pub text_behind : Option (LogLevel × Bytes) → Option (LogLevel × Bytes)
text_behind none = none
text_behind (some (l, rest)) = with_level l (behind_level rest)

-- `ParseLine`, none for a line without a prefix
unfoldable pub parse_line : Bytes → Option (LogLevel × Bytes)
unfolding match_all level_name close_seconds
parse_line line = text_behind (level_name (or_all line (match_all stamp line)))
