-- ===== src/LoadMap/Dns/Refresh.antt =====
-- One lookup at a time for a name, and answers that stay.
use rapido_go.Prelude.{
  ℕ, ◌+◌, ◌<◌, ◌≤◌, ℤ, String, Bool, true, false, ◌==◌, string_eq, eq_iff, Option, none, some, List,
  [], ◌∷◌, lookup, lookup-insert, ltb, if◌then◌else◌, ◌≡◌, refl, ap, ◌∙◌, arith, Bool-cases, inl,
  inr,
}
use rapido_go.Prelude.Count.{count, count-append, bit, count_one}
use rapido_go.LoadMap.Dns.{
  DnsEntry, DnsCache, new_cache, fresh_entry, is_due, refresh, lookup_entry, lookup_parsed,
  lookup_name, parse_all, settle, drop_first, finish_entry, finish,
}

abbrev pub refreshing_of : Option DnsEntry → Bool
refreshing_of none = false
refreshing_of (some e) = e.refreshing

-- How many lookups of a name are under way.
abbrev pub running : String → DnsCache → ℕ
running name c = count (λ n. n == name) c.pending

-- Each name has one lookup under way while it is marked as refreshing, and none otherwise.
abbrev pub IsSingle : DnsCache → Type 0
IsSingle c = (name : String) → running name c ≡ bit (refreshing_of (lookup name c.entries))

refresh-IsSingle :
    (c : DnsCache) (name : String) (e : DnsEntry)
    → refreshing_of (lookup name c.entries) ≡ false
    → IsSingle c
    → IsSingle (refresh c name e)
refresh-IsSingle c name e idle h k = elim (Bool-cases (name == k)) [
  | inl t ↦
      let same : name ≡ k = (eq_iff name k).0 t in
      let none_yet : running k c ≡ 0 = h k ∙ rw (← same) (rw idle refl) in
      rw (lookup-insert name k (record e { refreshing = true }) c.entries) (
        rw t (
          rw (count-append (λ n. n == k) c.pending (name ∷ []))
            (rw (count_one (λ n. n == k) name) (rw t (omega (arith, none_yet))))))
  | inr t ↦ rw (lookup-insert name k (record e { refreshing = true }) c.entries) (
      rw t (
        rw (count-append (λ n. n == k) c.pending (name ∷ []))
          (rw (count_one (λ n. n == k) name) (rw t (omega (arith, h k))))))
]

lookup_entry-IsSingle :
    (c : DnsCache) (name : String) (now : ℤ) (o : Option DnsEntry)
    → lookup name c.entries ≡ o
    → IsSingle c
    → IsSingle (lookup_entry c name now o).0
unfolding lookup_entry
lookup_entry-IsSingle c name now none e h =
    refresh-IsSingle c name fresh_entry (ap refreshing_of e) h
lookup_entry-IsSingle c name now (some d) e h = elim (Bool-cases (is_due now d)) [
  | inl t ↦ rw t (refresh-IsSingle c name d (ap refreshing_of e ∙ ground arith) h)
  | inr t ↦ rw t h
]

lookup_parsed-IsSingle :
    (c : DnsCache) (name : String) (now : ℤ) (o : Option String)
    → IsSingle c
    → IsSingle (lookup_parsed c name now o).0
lookup_parsed-IsSingle c name now none h =
    lookup_entry-IsSingle c name now (lookup name c.entries) refl h
lookup_parsed-IsSingle c name now (some ip) h = h

count-drop_first :
    (k name : String) (ns : List String)
    → 0 < count (λ n. n == name) ns
    → count (λ n. n == k) (drop_first name ns) + bit (name == k) ≡ count (λ n. n == k) ns
unfolding count
count-drop_first k name [] h = absurd (omega arith)
count-drop_first k name (n ∷ ns) h = elim (Bool-cases (n == name)) [
  | inl t ↦ rw t (rw ((eq_iff n name).0 t) (omega arith))
  | inr t ↦ let rest = count-drop_first k name ns (ground (arith, t)) in rw t (omega (arith, rest))
]

bit-le : (b : Bool) → bit b ≤ 1
bit-le true = omega arith
bit-le false = omega arith

settle_idle :
    (err : Bool) (ips : List String) (now : ℤ) (e : DnsEntry)
    → (settle err ips now e).refreshing ≡ false
unfolding settle
settle_idle err [] now e = refl
settle_idle true (ip ∷ ips) now e = refl
settle_idle false (ip ∷ ips) now e = refl

finish_entry-IsSingle :
    (c : DnsCache) (name : String) (err : Bool) (ips : List String) (now : ℤ) (o : Option DnsEntry)
    → lookup name c.entries ≡ o
    → 0 < running name c
    → IsSingle c
    → IsSingle (finish_entry c name err ips now o)
finish_entry-IsSingle c name err ips now none e busy h k = h k
finish_entry-IsSingle c name err ips now (some d) e busy h k =
    let one = h k in
    let dropped = count-drop_first k name c.pending busy in
    rw (lookup-insert name k (settle err ips now d) c.entries) (elim (Bool-cases (name == k)) [
      | inl t ↦ rw t (
          rw (settle_idle err ips now d)
            (omega (arith, rw t at dropped, one, bit-le (refreshing_of (lookup k c.entries)))))
      | inr t ↦ rw t (omega (arith, dropped, one, rw t at dropped))
    ])

-- What happens to the cache: a name is looked up, or one of its lookups ends.
pub data Event : Type 0 where
  asks : String → ℤ → Event
  answers : String → Bool → List String → ℤ → Event

module _ (parse : String → Option String) where
  -- Only a lookup that is under way can end.
  abbrev pub step : DnsCache → Event → DnsCache
  step c (asks name now) = (lookup_name parse c name now).0
  step c (answers name err addrs now) =
      if ltb 0 (running name c) then finish parse c name err addrs now else c

  abbrev pub run : DnsCache → List Event → DnsCache
  run c [] = c
  run c (e ∷ es) = run (step c e) es

  step-IsSingle : (c : DnsCache) (e : Event) → IsSingle c → IsSingle (step c e)
  unfolding lookup_name finish
  step-IsSingle c (asks name now) h = lookup_parsed-IsSingle c name now (parse name) h
  step-IsSingle c (answers name err addrs now) h = elim (Bool-cases (ltb 0 (running name c))) [
    | inl t ↦ rw t (
        finish_entry-IsSingle c name err (parse_all parse addrs) now (lookup name c.entries) refl
          (ground arith) h)
    | inr t ↦ rw t h
  ]

  run-IsSingle : (es : List Event) (c : DnsCache) → IsSingle c → IsSingle (run c es)
  run-IsSingle [] c h = h
  run-IsSingle (e ∷ es) c h = run-IsSingle es (step c e) (step-IsSingle c e h)

  -- In a cache that has run through any lookups and answers, each name has one lookup under way
  -- while it is marked as refreshing, and none otherwise.
  pub run_lookups : (es : List Event) → IsSingle (run new_cache es)
  unfolding count
  run_lookups es = run-IsSingle es new_cache (λ name. refl)
