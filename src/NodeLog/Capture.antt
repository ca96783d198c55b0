-- ===== src/NodeLog/Capture.antt =====
-- internal/nodelog/capture.go: Process and handle, over the fragments that ReadLine gives until it
-- fails. The ring and the aggregator are the calls of Add and Count that they get, the real stderr the
-- lines written to it.
pub mod Kept
use rapido_go.Prelude.{
  ℕ, ◌*◌, Bool, true, false, Option, none, some, List, [], ◌∷◌, ◌++◌, length, ltb, if◌then◌else◌,
}
use rapido_go.Prelude.Bytes.{Bytes}
use rapido_go.NodeLog.{LogLevel, info, strip_ansi, parse_line}
use rapido_go.NodeLog.Classify.{Kind, classify}

abbrev pub max_line_bytes : ℕ
max_line_bytes = 16 * 1024

pub record Capture : Type 0 where
  pub last_level : LogLevel
  pub filed : List (LogLevel × Bytes)
  pub counted : List Kind
  pub out : List Bytes

-- `NewCapture`
abbrev pub new_capture : Capture
new_capture = record { last_level = info; filed = []; counted = []; out = [] }

-- The line is stored and forwarded.
abbrev pub keep : Capture → Bytes → LogLevel → Bytes → Capture
keep c raw level text = record c {
  filed = c.filed ++ ((level, text) ∷ []);
  out = c.out ++ (raw ∷ []);
}

abbrev pub handle_judged : Capture → Bytes → LogLevel → Bytes → Option Kind → Capture
handle_judged c raw level text none = keep (record c { last_level = level }) raw level text
handle_judged c raw level text (some kind) = record c {
  last_level = level;
  counted = c.counted ++ (kind ∷ []);
}

abbrev pub handle_parsed : Capture → Bytes → Bytes → Option (LogLevel × Bytes) → Capture
handle_parsed c raw line none = keep c raw c.last_level line
handle_parsed c raw line (some (level, text)) = handle_judged c raw level text (classify level text)

-- `handle`
unfoldable pub handle : Capture → Bytes → Capture
handle c raw = let line = strip_ansi raw in handle_parsed c raw line (parse_line line)

-- A line longer than the buffer: its beginning is kept.
abbrev pub lengthen : Bytes → Bytes → Bytes
lengthen long frag = if ltb (length long) max_line_bytes then long ++ frag else long

abbrev pub joined : Bytes → Bytes → Bytes
joined [] frag = frag
joined (b ∷ long) frag = (b ∷ long) ++ frag

-- What is left where the reader ends.
abbrev pub handle_rest : Capture → Bytes → Capture
handle_rest c [] = c
handle_rest c (b ∷ long) = handle c (b ∷ long)

-- `Process`, each fragment with whether the line goes on
unfoldable pub process : Capture → Bytes → List (Bytes × Bool) → Capture
process c long [] = handle_rest c long
process c long ((frag, true) ∷ rest) = process c (lengthen long frag) rest
process c long ((frag, false) ∷ rest) = process (handle c (joined long frag)) [] rest
