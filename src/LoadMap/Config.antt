-- ===== src/LoadMap/Config.antt =====
-- What surrounds a build in internal/loadmap/loadmap.go: the defaults of `New`, a build that panics,
-- and the addresses of a host. `trim` is strings.TrimSpace.
use rapido_go.Prelude.{
  ◌*◌, ℤ, pos, ltb_ℤ, leb_ℤ, String, string_eq, Bool, ◌||◌, ◌==◌, Option, none, some, List, [],
  if◌then◌else◌,
}
use rapido_go.LoadMap.Level.{default_capacity}
use rapido_go.LoadMap.Build.{Answers, Snapshot, build, empty_snapshot, contains}
use rapido_go.LoadMap.Dns.{DnsCache, lookup_name}

-- `DefaultTTL`, in nanoseconds
abbrev pub default_ttl : ℤ
default_ttl = pos (3 * 1000000000)

-- The numbers of `Config`.
pub record Config : Type 0 where
  pub capacity : ℤ
  pub ttl : ℤ

-- The defaults that `New` puts in.
unfoldable pub with_defaults : Config → Config
with_defaults c = record {
  capacity = if ltb_ℤ c.capacity (pos 1) then pos default_capacity else c.capacity;
  ttl = if leb_ℤ c.ttl (pos 0) then default_ttl else c.ttl;
}

-- `safeBuild`: what it gives where the build panics, at the instant of the recovery, and else.
unfoldable pub safe_build : Bool → ℤ → Answers → Snapshot
unfolding build
safe_build panics recovered a = if panics then empty_snapshot a.default recovered else build a

-- `expand`
abbrev pub expand : Option (String → String) → String → String
expand none address = address
expand (some rewrite) address = rewrite address

-- `addresses`: a blank text, or one with a variable left in it, is not looked up.
unfoldable pub addresses :
    (String → String) → (String → Option String) → DnsCache → String → ℤ → DnsCache × List String
addresses trim parse c address now =
    let name = trim address in
    if name == "" || contains name "{" || contains name "}"
    then (c, [])
    else lookup_name parse c name now
