-- ===== src/LoadMap/Dns/Keep.antt =====
-- Answers that stay.
use rapido_go.Prelude.{
  ℤ, String, Bool, true, false, ◌==◌, string_eq, eq_iff, Option, none, some, List, [], ◌∷◌, lookup,
  insert, lookup-insert, ltb, ◌≡◌, ◌≢◌, refl, ap, ◌∙◌, Bool-cases, inl, inr,
}
use rapido_go.LoadMap.Dns.{
  DnsEntry, DnsCache, fresh_entry, is_due, lookup_entry, lookup_parsed, lookup_name, parse_all,
  settle, finish_entry, finish,
}
use rapido_go.LoadMap.Dns.Refresh.{Event, asks, answers, step, run, running}

abbrev pub ips_of : Option DnsEntry → List String
ips_of none = []
ips_of (some e) = e.ips

-- What the cache knows of a name.
abbrev pub known : String → DnsCache → List String
known k c = ips_of (lookup k c.entries)

-- Writing an entry that has an answer where the one before it had one loses no answer.
insert-keeps :
    (c : DnsCache) (name k : String) (e : DnsEntry)
    → (known name c ≢ [] → e.ips ≢ [])
    → known k c ≢ []
    → ips_of (lookup k (insert name e c.entries)) ≢ []
insert-keeps c name k e better h = elim (Bool-cases (name == k)) [
  | inl t ↦
      let same : name ≡ k = (eq_iff name k).0 t in
      rw (lookup-insert name k e c.entries) (rw t (better (rw same h)))
  | inr t ↦ rw (lookup-insert name k e c.entries) (rw t h)
]

lookup_entry-keeps :
    (c : DnsCache) (name k : String) (now : ℤ) (o : Option DnsEntry)
    → lookup name c.entries ≡ o
    → known k c ≢ []
    → known k (lookup_entry c name now o).0 ≢ []
unfolding lookup_entry
lookup_entry-keeps c name k now none e h =
    insert-keeps c name k fresh_entry (λ old. absurd (old (ap ips_of e))) h
lookup_entry-keeps c name k now (some d) e h = elim (Bool-cases (is_due now d)) [
  | inl t ↦ rw t (
      insert-keeps c name k (record d { refreshing = true }) (λ old none. old (ap ips_of e ∙ none))
        h)
  | inr t ↦ rw t h
]

settle-keeps :
    (err : Bool) (ips : List String) (now : ℤ) (e : DnsEntry)
    → e.ips ≢ []
    → (settle err ips now e).ips ≢ []
unfolding settle
settle-keeps err [] now e h = h
settle-keeps true (ip ∷ ips) now e h = h
settle-keeps false (ip ∷ ips) now e h = λ eq. cc

finish_entry-keeps :
    (c : DnsCache) (name k : String) (err : Bool) (ips : List String) (now : ℤ)
    (o : Option DnsEntry)
    → lookup name c.entries ≡ o
    → known k c ≢ []
    → known k (finish_entry c name err ips now o) ≢ []
finish_entry-keeps c name k err ips now none e h = h
finish_entry-keeps c name k err ips now (some d) e h =
    insert-keeps c name k (settle err ips now d)
      (λ old. settle-keeps err ips now d (λ none. old (ap ips_of e ∙ none))) h

module _ (parse : String → Option String) where
  lookup_parsed-keeps :
      (c : DnsCache) (name k : String) (now : ℤ) (o : Option String)
      → known k c ≢ []
      → known k (lookup_parsed c name now o).0 ≢ []
  lookup_parsed-keeps c name k now none h =
      lookup_entry-keeps c name k now (lookup name c.entries) refl h
  lookup_parsed-keeps c name k now (some ip) h = h

  step-keeps :
      (c : DnsCache) (e : Event) (k : String) → known k c ≢ [] → known k (step parse c e) ≢ []
  unfolding lookup_name finish
  step-keeps c (asks name now) k h = lookup_parsed-keeps c name k now (parse name) h
  step-keeps c (answers name err addrs now) k h = elim (Bool-cases (ltb 0 (running name c))) [
    | inl t ↦
        rw t (
          finish_entry-keeps c name k err (parse_all parse addrs) now (lookup name c.entries) refl
            h)
    | inr t ↦ rw t h
  ]

  -- A name that has an answer keeps one, whatever lookups and answers follow, failed and empty
  -- answers included.
  pub run-keeps :
      (es : List Event) (c : DnsCache) (k : String) → known k c ≢ [] → known k (run parse c es) ≢ []
  run-keeps [] c k h = h
  run-keeps (e ∷ es) c k h = run-keeps es (step parse c e) k (step-keeps c e k h)
