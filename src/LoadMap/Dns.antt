-- ===== src/LoadMap/Dns.antt =====
-- internal/loadmap/dns.go: names are resolved in the background. `pending` has the name of each
-- lookup that was started and has not finished. Parsing an address literal and the resolver's
-- answer come from outside. Instants are integers of nanoseconds. The mutex makes each step one.
pub mod Refresh
pub mod Keep
use rapido_go.Prelude.{
  ℕ, ◌*◌, ℤ, pos, ◌-ℤ◌, leb_ℤ, String, Bool, true, false, not, ◌&&◌, ◌||◌, ◌==◌, string_eq, Option,
  none, some, List, [], ◌∷◌, ◌++◌, Assoc, lookup, insert, if◌then◌else◌,
}

abbrev pub second : ℕ
second = 1000 * 1000 * 1000

abbrev pub dns_ttl : ℕ
dns_ttl = 5 * 60 * second

abbrev pub dns_fail_ttl : ℕ
dns_fail_ttl = 60 * second

pub record DnsEntry : Type 0 where
  pub ips : List String
  pub at : ℤ
  pub failed : Bool
  pub refreshing : Bool

pub record DnsCache : Type 0 where
  pub entries : Assoc String DnsEntry
  pub pending : List String

-- `newDNSCache`
abbrev pub new_cache : DnsCache
new_cache = record { entries = []; pending = [] }

abbrev pub fresh_entry : DnsEntry
fresh_entry = record { ips = []; at = pos 0; failed = false; refreshing = true }

abbrev pub ttl_of : DnsEntry → ℕ
ttl_of e = if e.failed then dns_fail_ttl else dns_ttl

-- Whether `lookup` starts a refresh of an entry.
abbrev pub is_due : ℤ → DnsEntry → Bool
is_due now e = not e.refreshing && leb_ℤ (pos (ttl_of e)) (now -ℤ e.at)

-- The entry marked as refreshing, and its lookup started.
abbrev pub refresh : DnsCache → String → DnsEntry → DnsCache
refresh c name e = record {
  entries = insert name (record e { refreshing = true }) c.entries;
  pending = c.pending ++ (name ∷ []);
}

-- `lookup` of a name that is not an address, by the entry it has.
pub lookup_entry : DnsCache → String → ℤ → Option DnsEntry → DnsCache × List String
lookup_entry c name now none = (refresh c name fresh_entry, [])
lookup_entry c name now (some e) = (if is_due now e then refresh c name e else c, e.ips)

abbrev pub lookup_parsed : DnsCache → String → ℤ → Option String → DnsCache × List String
lookup_parsed c name now (some ip) = (c, ip ∷ [])
lookup_parsed c name now none = lookup_entry c name now (lookup name c.entries)

-- `lookup`; `parse` is netip.ParseAddr with Unmap and String.
pub lookup_name : (String → Option String) → DnsCache → String → ℤ → DnsCache × List String
lookup_name parse c name now = lookup_parsed c name now (parse name)

-- The parsed addresses of an answer.
pub parse_all : (String → Option String) → List String → List String
parse_all parse [] = []
parse_all parse (s ∷ ss) =
    let rest = parse_all parse ss in elim (parse s) [ none ↦ rest | some ip ↦ ip ∷ rest ]

-- A lookup that failed or found nothing keeps the answer before it.
pub settle : Bool → List String → ℤ → DnsEntry → DnsEntry
settle err [] now e = record e { refreshing = false; at = now; failed = true }
settle err (ip ∷ ips) now e =
    if err
    then record e { refreshing = false; at = now; failed = true }
    else record e { refreshing = false; at = now; failed = false; ips = ip ∷ ips }

abbrev pub drop_first : String → List String → List String
drop_first name [] = []
drop_first name (n ∷ ns) = let rest = drop_first name ns in if n == name then ns else n ∷ rest

abbrev pub finish_entry : DnsCache → String → Bool → List String → ℤ → Option DnsEntry → DnsCache
finish_entry c name err ips now none = c
finish_entry c name err ips now (some e) = record {
  entries = insert name (settle err ips now e) c.entries;
  pending = drop_first name c.pending;
}

-- The end of the lookup that `spawn` started.
pub finish : (String → Option String) → DnsCache → String → Bool → List String → ℤ → DnsCache
finish parse c name err addrs now =
    finish_entry c name err (parse_all parse addrs) now (lookup name c.entries)
