-- ===== src/TunnelHealth.antt =====
-- internal/tunnelhealth/monitor.go: the up or down verdict for each WireGuard tunnel, with
-- hysteresis. A probe's result, the clock and the list of tunnels found on the host come from
-- outside. Instants and durations are integers of nanoseconds; the streaks, which grow by one in a
-- round, are natural numbers. The mutex makes each method one step.
pub mod Verdict
pub mod Rounds
mod Tests
use Prim.Native.Nat.{Ordering}
use Prim.Native.String.{compare}
use rapido_go.Prelude.{
  ℕ, ◌+◌, ◌*◌, ◌/◌, pos_part, ℤ, pos, String, Bool, true, false, not, ◌&&◌, ◌||◌, ◌==◌, string_eq,
  Option, none, some, List, [], ◌∷◌, Assoc, lookup, insert, ltb_ℤ, leb_ℤ, any, select,
  if◌then◌else◌,
}

-- The settings that `New` completes.
pub record Options : Type 0 where
  pub interval : ℤ
  pub down_after : ℤ
  pub up_after : ℤ
  pub probe_timeout : ℤ

-- time.Second, in nanoseconds.
abbrev pub second : ℕ
second = 1000 * 1000 * 1000

-- The value of a setting, or its default where it is not positive.
pub positive_or : ℤ → ℤ → ℤ
positive_or v default = if leb_ℤ v (pos 0) then default else v

pub record Status : Type 0 where
  pub name : String
  pub present : Bool
  pub up : Bool
  pub probed : Bool
  pub rtt : ℤ
  pub error : String
  pub checked_at : ℤ
  pub since : ℤ

pub record Entry : Type 0 where
  pub status : Status
  pub ok_streak : ℕ
  pub fail_streak : ℕ

pub record Monitor : Type 0 where
  pub opts : Options
  pub entries : Assoc String Entry
  pub watched : List String

-- `New`, for the settings with a numeric default.
pub new_monitor : Options → Monitor
unfolding positive_or
new_monitor o = record {
  opts = record {
    interval = positive_or o.interval (pos (5 * second));
    down_after = positive_or o.down_after (pos 2);
    up_after = positive_or o.up_after (pos 3);
    probe_timeout = positive_or o.probe_timeout (pos (4 * second));
  };
  entries = [];
  watched = [];
}

-- `Watch`
pub watch : Monitor → List String → Monitor
watch m names = record m { watched = select (λ n. not (n == "")) names }

-- What a probe returned: the round trip, or an error, of which ErrMissing is told apart.
pub data ProbeResult : Type 0 where
  reached : ℤ → ProbeResult
  missing : String → ProbeResult
  unreached : String → ProbeResult

-- &entry{Status: Status{Name: name, Since: now}}
abbrev pub new_entry : String → ℤ → Entry
new_entry name now = record {
  status = record {
    name = name;
    present = false;
    up = false;
    probed = false;
    rtt = pos 0;
    error = "";
    checked_at = pos 0;
    since = now;
  };
  ok_streak = 0;
  fail_streak = 0;
}

-- `since` moves when the verdict changes, and on the first probe.
abbrev pub settle : Bool → ℤ → Entry → Bool → ℤ
settle first now e up' =
    if first || (up' && not e.status.up) || (not up' && e.status.up) then now else e.status.since

succeed : Options → Bool → ℤ → ℤ → Entry → Entry
succeed o first now rtt e =
    let up' =
      if first || (not e.status.up && leb_ℤ o.up_after (pos (e.ok_streak + 1)))
      then true
      else e.status.up in
    record {
      status = record e.status {
        present = true;
        up = up';
        probed = true;
        rtt = rtt;
        error = "";
        checked_at = now;
        since = settle first now e up';
      };
      ok_streak = e.ok_streak + 1;
      fail_streak = 0;
    }

fail : Options → Bool → ℤ → Bool → String → Entry → Entry
fail o first now absent message e =
    let up' =
      if first || absent || (e.status.up && leb_ℤ o.down_after (pos (e.fail_streak + 1)))
      then false
      else e.status.up in
    record {
      status = record e.status {
        present = not absent;
        up = up';
        probed = true;
        rtt = pos 0;
        error = message;
        checked_at = now;
        since = settle first now e up';
      };
      ok_streak = 0;
      fail_streak = e.fail_streak + 1;
    }

-- The part of `record` that works on the entry.
unfoldable pub update : Options → Bool → ℤ → ProbeResult → Entry → Entry
unfolding succeed fail
update o first now (reached rtt) e = succeed o first now rtt e
update o first now (missing message) e = fail o first now true message e
update o first now (unreached message) e = fail o first now false message e

pub updated : Options → String → ℤ → ProbeResult → Option Entry → Entry
updated o name now r none = update o true now r (new_entry name now)
updated o name now r (some e) = update o false now r e

-- `record`
pub record_probe : Monitor → String → ProbeResult → ℤ → Monitor
record_probe m name r now = record m {
  entries = insert name (updated m.opts name now r (lookup name m.entries)) m.entries;
}

-- A name put into a sorted list of distinct names: the set of `trackedNames`, in the order of
-- sort.Strings.
pub add_name : String → List String → List String
add_name n [] = n ∷ []
add_name n (x ∷ xs) = elim (compare n x) [
  | Ordering.lt ↦ n ∷ x ∷ xs
  | Ordering.eq ↦ x ∷ xs
  | Ordering.gt ↦ x ∷ add_name n xs
]

abbrev pub add_names : List String → List String → List String
add_names [] set = set
add_names (n ∷ ns) set = add_names ns (add_name n set)

-- `trackedNames`, for the tunnels that `Discover` found.
pub tracked_names : Monitor → List String → List String
tracked_names m discovered = add_names m.watched (add_names discovered [])

-- One result taken from the channel, with the clock's reading.
pub record Arrival : Type 0 where
  pub name : String
  pub result : ProbeResult
  pub now : ℤ

pub record_all : Monitor → List Arrival → Monitor
record_all m [] = m
record_all m (a ∷ rest) = record_all (record_probe m a.name a.result a.now) rest

abbrev pub keep_names : List String → Assoc String Entry → Assoc String Entry
keep_names names [] = []
keep_names names ((n, e) ∷ es) =
    let rest = keep_names names es in if any (λ k. k == n) names then (n, e) ∷ rest else rest

-- `Tick`: the results in the order in which they came, then the entries of other names go.
pub tick : Monitor → List String → List Arrival → Monitor
tick m discovered arrivals =
    let names = tracked_names m discovered in
    let m' = record_all m arrivals in record m' { entries = keep_names names m'.entries }

abbrev pub verdict_of : Option Entry → Bool
verdict_of none = true
verdict_of (some e) = if not e.status.probed then true else e.status.up

-- `Up`
pub is_up : Monitor → String → Bool
is_up m name = verdict_of (lookup name m.entries)

-- `Status`
pub status : Monitor → String → Option Status
status m name = elim (lookup name m.entries) [ none ↦ none | some e ↦ some e.status ]

-- hostmetrics.TunnelHealth; the round trip is in microseconds, which the code divides by 1000 to
-- report milliseconds.
pub record TunnelHealth : Type 0 where
  pub present : Bool
  pub up : Bool
  pub error : String
  pub probe_us : Option ℕ

abbrev health_of : Status → TunnelHealth
health_of s = record {
  present = s.present;
  up = s.up;
  error = s.error;
  probe_us = if s.up && ltb_ℤ (pos 0) s.rtt then some (pos_part s.rtt / 1000) else none;
}

abbrev health_from : List String → Assoc String Entry → List (String × TunnelHealth)
health_from own [] = []
health_from own ((n, e) ∷ es) =
    let rest = health_from own es in
    if not (any (λ k. k == n) own) || not e.status.probed
    then rest
    else (n, health_of e.status) ∷ rest

-- `Health`, for the tunnels that `Discover` found.
pub health : Monitor → List String → List (String × TunnelHealth)
health m discovered = health_from discovered m.entries
