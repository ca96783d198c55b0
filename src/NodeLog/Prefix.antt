-- ===== src/NodeLog/Prefix.antt =====
-- `ParseLine` of internal/nodelog/classify.go reads the prefixes that sing-box writes.
use rapido_go.Prelude.{◌≡◌, refl, ap, ◌∙◌, true, Option, none, some, List, [], ◌∷◌, ◌++◌, All}
use rapido_go.Prelude.Bytes.{Bytes, bytes}
use rapido_go.NodeLog.{
  LogLevel, debug, info, warn, error, is_digit, Pattern, fits, match_all, stamp, or_all, level_name,
  close_seconds, behind_level, with_level, text_behind, parse_line,
}

-- The names of levels that sing-box has.
pub data Name : Type 0 where
  trace_name : Name
  debug_name : Name
  info_name : Name
  warn_name : Name
  error_name : Name
  fatal_name : Name
  panic_name : Name

abbrev pub spelled : Name → Bytes
spelled trace_name = bytes "TRACE"
spelled debug_name = bytes "DEBUG"
spelled info_name = bytes "INFO"
spelled warn_name = bytes "WARN"
spelled error_name = bytes "ERROR"
spelled fatal_name = bytes "FATAL"
spelled panic_name = bytes "PANIC"

abbrev pub level_of : Name → LogLevel
level_of trace_name = debug
level_of debug_name = debug
level_of info_name = info
level_of warn_name = warn
level_of error_name = error
level_of fatal_name = error
level_of panic_name = error

-- The seconds since the start, where they are written.
abbrev pub write_seconds : Bytes → Bytes → Bytes
write_seconds [] text = b' ' ∷ text
write_seconds (d ∷ ds) text = b'[' ∷ d ∷ (ds ++ (b']' ∷ b' ' ∷ text))

abbrev pub write_stamp : Option Bytes → Bytes → Bytes
write_stamp none s = s
write_stamp (some w) s = w ++ s

abbrev pub write_line : Option Bytes → Name → Bytes → Bytes → Bytes
write_line w n ds text = write_stamp w (spelled n ++ write_seconds ds text)

abbrev pub Fits : List Pattern → Bytes → Type 0
Fits [] [] = Unit
Fits [] (c ∷ w) = ⊥
Fits (p ∷ ps) [] = ⊥
Fits (p ∷ ps) (c ∷ w) = (fits p c ≡ true) × Fits ps w

abbrev pub IsStamp : Option Bytes → Type 0
IsStamp none = Unit
IsStamp (some w) = Fits stamp w

match_all-Fits : (ps : List Pattern) (w s : Bytes) → Fits ps w → match_all ps (w ++ s) ≡ some s
unfolding match_all
match_all-Fits [] [] s h = refl
match_all-Fits [] (c ∷ w) s h = elim h [ ]
match_all-Fits (p ∷ ps) [] s h = elim h [ ]
match_all-Fits (p ∷ ps) (c ∷ w) s h = rw h.0 (match_all-Fits ps w s h.1)

match_all-spelled : (n : Name) (s : Bytes) → match_all stamp (spelled n ++ s) ≡ none
unfolding match_all
match_all-spelled trace_name s = refl
match_all-spelled debug_name s = refl
match_all-spelled info_name s = refl
match_all-spelled warn_name s = refl
match_all-spelled error_name s = refl
match_all-spelled fatal_name s = refl
match_all-spelled panic_name s = refl

level_name-spelled : (n : Name) (s : Bytes) → level_name (spelled n ++ s) ≡ some (level_of n, s)
unfolding level_name
level_name-spelled trace_name s = refl
level_name-spelled debug_name s = refl
level_name-spelled info_name s = refl
level_name-spelled warn_name s = refl
level_name-spelled error_name s = refl
level_name-spelled fatal_name s = refl
level_name-spelled panic_name s = refl

close_seconds-digits :
    (ds text : Bytes)
    → All (λ d. is_digit d ≡ true) ds
    → close_seconds (ds ++ (b']' ∷ b' ' ∷ text)) ≡ some text
unfolding close_seconds
close_seconds-digits [] text h = refl
close_seconds-digits (d ∷ ds) text h = rw h.0 (close_seconds-digits ds text h.1)

behind_level-seconds :
    (ds text : Bytes)
    → All (λ d. is_digit d ≡ true) ds
    → behind_level (write_seconds ds text) ≡ some text
behind_level-seconds [] text h = refl
behind_level-seconds (d ∷ ds) text h = rw h.0 (close_seconds-digits ds text h.1)

or_all-stamp :
    (w : Option Bytes) (n : Name) (s : Bytes)
    → IsStamp w
    → or_all (write_stamp w (spelled n ++ s)) (match_all stamp (write_stamp w (spelled n ++ s)))
      ≡ spelled n ++ s
or_all-stamp none n s h = rw (match_all-spelled n s) refl
or_all-stamp (some w) n s h = rw (match_all-Fits stamp w (spelled n ++ s) h) refl

-- A line with the name of a level, the digits of the seconds or none, and a text is read as that
-- text at the level the name stands for, behind a time stamp as well as without one.
pub parse_line-write :
    (w : Option Bytes) (n : Name) (ds text : Bytes)
    → IsStamp w
    → All (λ d. is_digit d ≡ true) ds
    → parse_line (write_line w n ds text) ≡ some (level_of n, text)
unfolding parse_line
parse_line-write w n ds text h g =
    ap (λ s. text_behind (level_name s)) (or_all-stamp w n (write_seconds ds text) h)
    ∙ ap text_behind (level_name-spelled n (write_seconds ds text))
    ∙ ap (λ t. with_level (level_of n) t) (behind_level-seconds ds text g)
