-- ===== src/NodeLive/Flags.antt =====
-- Who is shown as online by internal/httpapi/presence.go after any requests to
-- internal/httpapi/nodelive.go.
use rapido_go.Prelude.{
  ℕ, ◌+◌, ◌*◌, ◌/◌, ℤ, int_eq, String, Bool, true, false, ◌&&◌, ◌==◌, Option, none, some, List, [],
  ◌∷◌, ltb, leb, if◌then◌else◌, ◌≡◌, refl, ap, ap₂, ◌∙◌, arith, Bool-cases, inl, inr, if_true,
  Assoc, lookup, lookup-insert,
}
use rapido_go.Prelude.Bytes.{Bytes, bytes_eq}
use rapido_go.NodeLive.Stored.{Event, empty_store, run}
use rapido_go.NodeLive.Online.{
  View, milli, is_live, authoritative, see, seen_of, load_presence, user_status, is_within,
  presence_online_window, online_window,
}
use rapido_go.NodeLive.History.{
  lists, last_listed, reported_until, all_count, users-run, live-run, all_report-run,
}

abbrev pub or_seen : Option ℕ → Option ℕ → Option ℕ
or_seen none d = d
or_seen (some t) d = if ltb 0 t then some (t * milli) else d

lookup-see :
    (n name : Bytes) (o : Option ℕ) (m : Assoc Bytes ℕ)
    → lookup name (see n o m) ≡ (if n == name then or_seen o (lookup name m) else lookup name m)
lookup-see n name none m = ground arith
lookup-see n name (some t) m = elim (Bool-cases (ltb 0 t)) [
  | inl e ↦ rw e (lookup-insert n name (t * milli) m)
  | inr e ↦ rw e (ground arith)
]

or_seen_twice : (o d : Option ℕ) → or_seen o (or_seen o d) ≡ or_seen o d
or_seen_twice none d = refl
or_seen_twice (some t) d = ground arith

once_more :
    (b : Bool) (o d : Option ℕ) → (if b then or_seen o (or_seen o d) else or_seen o d) ≡ or_seen o d
once_more true o d = or_seen_twice o d
once_more false o d = refl

lookup-seen_of :
    (names : List Bytes) (users m : Assoc Bytes ℕ) (name : Bytes)
    → lookup name (seen_of names users m)
      ≡ (if lists name names then or_seen (lookup name users) (lookup name m) else lookup name m)
unfolding seen_of
lookup-seen_of [] users m name = refl
lookup-seen_of (n ∷ names) users m name =
    lookup-seen_of names users (see n (lookup n users) m) name
    ∙ ap (λ d. if lists name names then or_seen (lookup name users) d else d)
        (lookup-see n name (lookup n users) m)
    ∙ elim (Bool-cases (n == name)) [
      | inl e ↦ rw e (
          rw ((bytes_eq.beq_path n name).0 e)
            (once_more (lists name names) (lookup name users) (lookup name m)))
      | inr e ↦ rw e refl
    ]

-- Who is online where presence is live.
abbrev pub is_online : ℕ → Option ℕ → Bool
is_online now none = false
is_online now (some t) = ltb 0 t && leb now (t * milli + presence_online_window)

is_within-or_seen :
    (now : ℕ) (o : Option ℕ)
    → is_within presence_online_window now (or_seen o none) ≡ is_online now o
is_within-or_seen now none = refl
is_within-or_seen now (some t) = elim (Bool-cases (ltb 0 t)) [
  | inl e ↦ rw e refl
  | inr e ↦ rw e refl
]

module _ {F : Type 0} (positive : F → Bool) (fold : String → String) (ts_from_id : ℤ → String)
    (vs : List (Event F)) (ids : List ℤ) (name : Bytes) (names : List Bytes) (now : ℕ)
    (db : Option ℕ) (asked : lists name names ≡ true) where
  abbrev pub view : View
  view = load_presence true (now / milli) ids names (run positive fold ts_from_id vs empty_store)

  view_fields :
      (view.live ≡ authoritative (now / milli) ids (run positive fold ts_from_id vs empty_store))
      × (view.seen ≡ seen_of names (run positive fold ts_from_id vs empty_store).users [])
  unfolding load_presence
  view_fields = nonempty names asked
    where
      nonempty :
          (ns : List Bytes)
          → lists name ns ≡ true
          → ((load_presence true
                (now / milli)
                ids
                ns
                (run positive fold ts_from_id vs empty_store)).live
              ≡ authoritative (now / milli) ids (run positive fold ts_from_id vs empty_store))
            × ((load_presence true
                  (now / milli)
                  ids
                  ns
                  (run positive fold ts_from_id vs empty_store)).seen
                ≡ seen_of ns (run positive fold ts_from_id vs empty_store).users [])
      nonempty [] h = absurd (ground (arith, h))
      nonempty (n ∷ ns) h = (refl, refl)

  pub run-user_status : (user_status view name db now).0 ≡ (
      if is_live (now / milli) (reported_until positive vs none)
        && all_count positive fold ts_from_id (now / milli) ids vs
      then is_online now (last_listed positive name vs none)
      else is_within online_window now db)
  unfolding authoritative user_status
  run-user_status =
      let s = run positive fold ts_from_id vs empty_store in
      ap₂ (λ live online. if live then online else is_within online_window now db)
        (view_fields.0
          ∙ ap₂ (λ a b. a && b)
              (ap (is_live (now / milli)) (live-run positive fold ts_from_id vs empty_store))
              (all_report-run positive fold ts_from_id (now / milli) ids vs))
        (ap (λ seen. is_within presence_online_window now (lookup name seen)) view_fields.1
          ∙ ap (is_within presence_online_window now)
              (lookup-seen_of names s.users [] name ∙ if_true (lists name names) _ _ asked)
          ∙ is_within-or_seen now (lookup name s.users)
          ∙ ap (is_online now) (users-run positive fold ts_from_id vs empty_store name))
