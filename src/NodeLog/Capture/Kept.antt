-- ===== src/NodeLog/Capture/Kept.antt =====
-- Process of internal/nodelog/capture.go: which lines reach the real stderr.
use rapido_go.Prelude.{
  ℕ, ◌≤◌, ◌≡◌, refl, sym, ap, ◌∙◌, Bool, true, false, Option, none, some, List, [], ◌∷◌, ◌++◌,
  append-nil, append_assoc, All, length, ltb, if_false, arith,
}
use rapido_go.Prelude.Bytes.{Bytes}
use rapido_go.NodeLog.{LogLevel, strip_ansi, parse_line}
use rapido_go.NodeLog.Classify.{Kind, classify}
use rapido_go.NodeLog.Capture.{
  Capture, handle, handle_judged, handle_parsed, process, max_line_bytes,
}

-- A line as ReadLine gives it: the fragments behind which it goes on, and the last one.
pub record Line : Type 0 where
  pub starts : List Bytes
  pub end : Bytes

unfoldable pub started : List Bytes → List (Bytes × Bool) → List (Bytes × Bool)
started [] rest = rest
started (p ∷ ps) rest = (p, true) ∷ started ps rest

-- What is read: lines, and the fragments of one whose end cannot be read.
unfoldable pub fragments_of : List Line → List Bytes → List (Bytes × Bool)
unfolding started
fragments_of [] partial = started partial []
fragments_of (l ∷ ls) partial = started l.starts ((l.end, false) ∷ fragments_of ls partial)

-- A line of one fragment is itself; of a longer one the first and the last fragment stay.
abbrev pub shortened : List Bytes → Bytes → Bytes
shortened [] end = end
shortened (p ∷ ps) end = p ++ end

abbrev pub cut_off : List Bytes → List Bytes
cut_off [] = []
cut_off (p ∷ ps) = p ∷ []

abbrev pub lines_of : List Line → List Bytes → List Bytes
lines_of [] partial = cut_off partial
lines_of (l ∷ ls) partial = shortened l.starts l.end ∷ lines_of ls partial

-- A fragment behind which the line goes on fills the buffer of 64 KiB, up to a byte.
abbrev pub IsFull : Bytes → Type 0
IsFull p = max_line_bytes ≤ length p

abbrev pub kind_of : Option (LogLevel × Bytes) → Option Kind
kind_of none = none
kind_of (some (level, text)) = classify level text

-- The kind of noise that a line is.
abbrev pub noise : Bytes → Option Kind
noise raw = kind_of (parse_line (strip_ansi raw))

abbrev pub unless_noise : Option Kind → Bytes → List Bytes → List Bytes
unless_noise none raw rest = raw ∷ rest
unless_noise (some kind) raw rest = rest

abbrev pub kept : List Bytes → List Bytes
kept [] = []
kept (raw ∷ rest) = unless_noise (noise raw) raw (kept rest)

abbrev pub if_noise : Option Kind → List Kind → List Kind
if_noise none rest = rest
if_noise (some kind) rest = kind ∷ rest

abbrev pub dropped : List Bytes → List Kind
dropped [] = []
dropped (raw ∷ rest) = if_noise (noise raw) (dropped rest)

-- What a line adds is put in front of what the others add.
judged_out :
    (c : Capture) (raw : Bytes) (level : LogLevel) (text : Bytes) (k : Option Kind)
    (rest : List Bytes)
    → (handle_judged c raw level text k).out ++ rest ≡ c.out ++ unless_noise k raw rest
judged_out c raw level text none rest = append_assoc c.out (raw ∷ []) rest
judged_out c raw level text (some kind) rest = refl

parsed_out :
    (c : Capture) (raw line : Bytes) (m : Option (LogLevel × Bytes)) (rest : List Bytes)
    → (handle_parsed c raw line m).out ++ rest ≡ c.out ++ unless_noise (kind_of m) raw rest
parsed_out c raw line none rest = append_assoc c.out (raw ∷ []) rest
parsed_out c raw line (some (level, text)) rest =
    judged_out c raw level text (classify level text) rest

judged_counted :
    (c : Capture) (raw : Bytes) (level : LogLevel) (text : Bytes) (k : Option Kind)
    (rest : List Kind)
    → (handle_judged c raw level text k).counted ++ rest ≡ c.counted ++ if_noise k rest
judged_counted c raw level text none rest = refl
judged_counted c raw level text (some kind) rest = append_assoc c.counted (kind ∷ []) rest

parsed_counted :
    (c : Capture) (raw line : Bytes) (m : Option (LogLevel × Bytes)) (rest : List Kind)
    → (handle_parsed c raw line m).counted ++ rest ≡ c.counted ++ if_noise (kind_of m) rest
parsed_counted c raw line none rest = refl
parsed_counted c raw line (some (level, text)) rest =
    judged_counted c raw level text (classify level text) rest

handle_out :
    (c : Capture) (raw : Bytes) (rest : List Bytes)
    → (handle c raw).out ++ rest ≡ c.out ++ unless_noise (noise raw) raw rest
unfolding handle
handle_out c raw rest = parsed_out c raw (strip_ansi raw) (parse_line (strip_ansi raw)) rest

handle_counted :
    (c : Capture) (raw : Bytes) (rest : List Kind)
    → (handle c raw).counted ++ rest ≡ c.counted ++ if_noise (noise raw) rest
unfolding handle
handle_counted c raw rest = parsed_counted c raw (strip_ansi raw) (parse_line (strip_ansi raw)) rest

-- Nothing follows a fragment of a line that has its first one.
process-started :
    (c : Capture) (b : ℕ) (long : Bytes) (ps : List Bytes) (rest : List (Bytes × Bool))
    → IsFull (b ∷ long)
    → process c (b ∷ long) (started ps rest) ≡ process c (b ∷ long) rest
unfolding process started
process-started c b long [] rest h = refl
process-started c b long (p ∷ ps) rest h =
    ap (λ t. process c t (started ps rest))
      (if_false (ltb (length (b ∷ long)) max_line_bytes) _ _ (ground (arith, h)))
    ∙ process-started c b long ps rest h

process_line :
    (c : Capture) (ps : List Bytes) (end : Bytes) (rest : List (Bytes × Bool))
    → All IsFull ps
    → process c [] (started ps ((end, false) ∷ rest))
      ≡ process (handle c (shortened ps end)) [] rest
unfolding process started
process_line c [] end rest h = refl
process_line c ([] ∷ ps) end rest h = absurd (omega (arith, h.0))
process_line c ((b ∷ p) ∷ ps) end rest h = process-started c b p ps ((end, false) ∷ rest) h.0

abbrev handle_all : Capture → List Bytes → Capture
handle_all c [] = c
handle_all c (raw ∷ rest) = handle_all (handle c raw) rest

process_partial :
    (c : Capture) (ps : List Bytes)
    → All IsFull ps
    → process c [] (started ps []) ≡ handle_all c (cut_off ps)
unfolding process started
process_partial c [] h = refl
process_partial c ([] ∷ ps) h = absurd (omega (arith, h.0))
process_partial c ((b ∷ p) ∷ ps) h = process-started c b p ps [] h.0

process-fragments_of :
    (c : Capture) (ls : List Line) (partial : List Bytes)
    → All (λ l. All IsFull l.starts) ls
    → All IsFull partial
    → process c [] (fragments_of ls partial) ≡ handle_all c (lines_of ls partial)
unfolding fragments_of
process-fragments_of c [] partial h g = process_partial c partial g
process-fragments_of c (l ∷ ls) partial h g =
    process_line c l.starts l.end (fragments_of ls partial) h.0
    ∙ process-fragments_of (handle c (shortened l.starts l.end)) ls partial h.1 g

all_out : (c : Capture) (raws : List Bytes) → (handle_all c raws).out ≡ c.out ++ kept raws
all_out c [] = sym (append-nil c.out)
all_out c (raw ∷ rest) = all_out (handle c raw) rest ∙ handle_out c raw (kept rest)

all_counted :
    (c : Capture) (raws : List Bytes) → (handle_all c raws).counted ≡ c.counted ++ dropped raws
all_counted c [] = sym (append-nil c.counted)
all_counted c (raw ∷ rest) = all_counted (handle c raw) rest ∙ handle_counted c raw (dropped rest)

-- Where each fragment but the last of a line has at least maxLineBytes bytes, every line that is no
-- noise is written on, in order, behind what was written before, and of every other line the kind is
-- counted, in order. A line of one or two fragments is taken whole, of a longer one the first and the
-- last fragment, and of one whose end cannot be read the first.
pub process-kept :
    (c : Capture) (ls : List Line) (partial : List Bytes)
    → All (λ l. All (λ p. max_line_bytes ≤ length p) l.starts) ls
    → All (λ p. max_line_bytes ≤ length p) partial
    → ((process c [] (fragments_of ls partial)).out ≡ c.out ++ kept (lines_of ls partial))
      × ((process c [] (fragments_of ls partial)).counted
          ≡ c.counted ++ dropped (lines_of ls partial))
process-kept c ls partial h g =
    let e = process-fragments_of c ls partial h g in
    (
      ap (λ (d : Capture). d.out) e ∙ all_out c (lines_of ls partial),
      ap (λ (d : Capture). d.counted) e ∙ all_counted c (lines_of ls partial),
    )
