-- ===== src/NodeLog/Classify.antt =====
-- `Classify` of internal/nodelog/classify.go.
use rapido_go.Prelude.{
  ℕ, Bool, true, false, not, ◌&&◌, ◌||◌, ◌==◌, nat_eq, Option, none, some, [], ◌∷◌, if◌then◌else◌,
}
use rapido_go.Prelude.Bytes.{Bytes, bytes, is_same, strip_prefix, has_prefix, trim_space}
use rapido_go.Mysqldump.Dump.{after_first, first_of}
use rapido_go.NodeLog.{LogLevel, debug, info, warn, error}

-- strings.Contains
abbrev pub is_found : Option Bytes → Bool
is_found none = false
is_found (some rest) = true

abbrev pub contains : Bytes → Bytes → Bool
contains s sub = is_found (after_first sub s)

-- strings.HasSuffix
abbrev pub has_suffix : Bytes → Bytes → Bool
has_suffix [] suffix = is_same [] suffix
has_suffix (c ∷ s) suffix = let rest = has_suffix s suffix in is_same (c ∷ s) suffix || rest

pub data Kind : Type 0 where
  client_eof : Kind
  mux_closed : Kind
  tls_handshake : Kind
  unknown_uuid : Kind
  bad_handshake : Kind
  client_reset : Kind
  broken_pipe : Kind
  closed_conn : Kind
  context_canceled : Kind
  client_timeout : Kind
  flow_mismatch : Kind
  dial_timeout : Bytes → Kind
  dial_refused : Bytes → Kind
  dial_unreachable : Bytes → Kind
  dns_failure : Bytes → Kind

-- `benignTail`
abbrev pub tail_kind : Bytes → Option Kind
tail_kind cause =
    if is_same cause (bytes "EOF")
      || has_suffix cause (bytes ": EOF")
      || has_suffix cause (bytes "unexpected EOF")
    then some client_eof
    else if contains cause (bytes "connection reset by peer")
        || contains cause (bytes "forcibly closed by the remote host")
    then some client_reset
    else if contains cause (bytes "broken pipe")
    then some broken_pipe
    else if contains cause (bytes "use of closed network connection")
    then some closed_conn
    else if contains cause (bytes "context canceled")
    then some context_canceled
    else if contains cause (bytes "i/o timeout") || contains cause (bytes "connection timed out")
    then some client_timeout
    else none

unfoldable pub benign_tail : Bytes → Option Kind
benign_tail cause = tail_kind (trim_space cause)

-- `isBadHandshake`
unfoldable pub is_bad_handshake : Bytes → Bool
is_bad_handshake cause =
    if is_same cause (bytes "bad header") || is_same cause (bytes "bad request")
    then true
    else if has_suffix cause (bytes ": fallback disabled")
    then true
    else contains cause (bytes "message authentication failed")

abbrev pub if_benign : Kind → Option Kind → Option Kind
if_benign k none = none
if_benign k (some tail) = some k

-- The cases of `classifyInbound` on the cause.
abbrev pub cause_kind : Bytes → Option Kind
cause_kind cause =
    if has_prefix (bytes "TLS handshake") cause
    then some tls_handshake
    else if contains cause (bytes "unknown UUID") || contains cause (bytes "unknown user")
    then some unknown_uuid
    else if is_bad_handshake cause
    then some bad_handshake
    else if has_prefix (bytes "flow mismatch") cause
    then some flow_mismatch
    else if contains cause (bytes "mux connection closed")
    then if_benign mux_closed (benign_tail cause)
    else benign_tail cause

abbrev pub kind_behind : Option Bytes → Option Kind
kind_behind none = none
kind_behind (some cause) = cause_kind cause

-- `classifyInbound`
unfoldable pub classify_inbound : Bytes → Option Kind
unfolding benign_tail is_bad_handshake
classify_inbound rest = kind_behind (after_first (bytes ": ") rest)

-- \s
abbrev pub is_blank : ℕ → Bool
is_blank c = (c == b' ') || (c == b'\t') || (c == b'\n') || (c == 12) || (c == b'\r')

-- A run of bytes, one or more, and what follows it.
abbrev pub run_of : (ℕ → Bool) → Bytes → Bytes × Bytes
run_of p [] = ([], [])
run_of p (c ∷ s) = let r = run_of p s in if p c then (c ∷ r.0, r.1) else ([], c ∷ s)

abbrev pub some_run : (ℕ → Bool) → Bytes → Option (Bytes × Bytes)
some_run p [] = none
some_run p (c ∷ s) = if p c then some (run_of p (c ∷ s)) else none

abbrev pub rest_of : Option (Bytes × Bytes) → Option Bytes
rest_of none = none
rest_of (some (r, rest)) = some rest

abbrev pub then_match {ℓ} : {A : Type ℓ} → Option Bytes → (Bytes → Option A) → Option A
then_match none f = none
then_match (some s) f = f s

-- "open connection to \S+" or "listen packet connection using"
abbrev pub dial_start : Bytes → Option Bytes
dial_start s =
    first_of
      (then_match (strip_prefix (bytes "open connection to ") s)
        (λ t. rest_of (some_run (λ c. not (is_blank c)) t)))
      (strip_prefix (bytes "listen packet connection using") s)

-- "[^\[\s:]+" and "[^\]]+"
abbrev pub is_type : ℕ → Bool
is_type c = not ((c == b'[') || is_blank c || (c == b':'))

abbrev pub is_tag : ℕ → Bool
is_tag c = not (c == b']')

-- ": (.*)$"; a dot does not match a line break.
abbrev pub whole_line : Bytes → Option Bytes
whole_line [] = some []
whole_line (c ∷ s) = let rest = whole_line s in if c == b'\n' then none else with_first c rest
  where
    with_first : ℕ → Option Bytes → Option Bytes
    with_first c none = none
    with_first c (some t) = some (c ∷ t)

abbrev pub cause_behind : Bytes → Bytes → Option (Bytes × Bytes)
cause_behind tag s =
    then_match (strip_prefix (bytes ": ") s) (λ t. then_match (whole_line t) (λ u. some (tag, u)))

abbrev pub tag_behind : Option (Bytes × Bytes) → Option (Bytes × Bytes)
tag_behind none = none
tag_behind (some (tag, rest)) = then_match (strip_prefix (bytes "]") rest) (λ t. cause_behind tag t)

abbrev pub type_behind : Option (Bytes × Bytes) → Option (Bytes × Bytes)
type_behind none = none
type_behind (some (type, [])) = none
type_behind (some (type, c ∷ rest)) =
    if c == b'[' then tag_behind (some_run is_tag rest) else cause_behind type (c ∷ rest)

-- `dialLine`: the tag, or the type where there is none, and the cause.
unfoldable pub dial_line : Bytes → Option (Bytes × Bytes)
dial_line s = then_match (dial_start s) (λ t. then_match (rest_of (some_run is_blank t)) (λ u.
    then_match (strip_prefix (bytes "using outbound/") u) (λ v. type_behind (some_run is_type v))))

-- `isNameNotFound`
abbrev pub is_name_not_found : Bytes → Bool
is_name_not_found cause =
    contains cause (bytes "NXDOMAIN")
    || contains cause (bytes "no such host")
    || contains cause (bytes "server misbehaving")

abbrev pub dial_kind : Option (Bytes × Bytes) → Option Kind
dial_kind none = none
dial_kind (some (tag, cause)) =
    if has_prefix (bytes "lookup ") cause && is_name_not_found cause
    then some (dns_failure tag)
    else if not (contains cause (bytes "dial "))
    then none
    else if contains cause (bytes "i/o timeout") || contains cause (bytes "connection timed out")
    then some (dial_timeout tag)
    else if contains cause (bytes "connection refused") || contains cause (bytes "actively refused")
    then some (dial_refused tag)
    else if contains cause (bytes "unreachable") || contains cause (bytes "no route to host")
    then some (dial_unreachable tag)
    else none

-- `classifyDial`
unfoldable pub classify_dial : Bytes → Option Kind
unfolding dial_line
classify_dial text = dial_kind (dial_line text)

-- What follows the first occurrence of a marker, with the marker.
abbrev pub from_first : Bytes → Bytes → Option Bytes
from_first p [] = if is_found (strip_prefix p []) then some [] else none
from_first p (c ∷ s) =
    let rest = from_first p s in if is_found (strip_prefix p (c ∷ s)) then some (c ∷ s) else rest

abbrev pub or_classify : Option Bytes → (Bytes → Option Kind) → Option Kind → Option Kind
or_classify none f other = other
or_classify (some s) f other = f s

abbrev pub is_severe : LogLevel → Bool
is_severe debug = false
is_severe info = false
is_severe warn = true
is_severe error = true

-- `Classify`, none for a line that is kept
unfoldable pub classify : LogLevel → Bytes → Option Kind
unfolding classify_dial classify_inbound benign_tail
classify level text =
    if not (is_severe level)
    then none
    else or_classify (from_first (bytes "open connection to ") text) classify_dial (
        or_classify (from_first (bytes "listen packet connection using") text) classify_dial (
          or_classify (after_first (bytes "process connection from ") text) classify_inbound (
            or_classify (after_first (bytes "connection upload closed: ") text) benign_tail (
              or_classify (after_first (bytes "connection download closed: ") text) benign_tail
                none))))
