-- ===== src/NodeLive/Logs.antt =====
-- The lines that `prepareNodeLogs` of internal/httpapi/nodelive.go stores grow by id, and a batch that
-- was stored is not stored again.
use rapido_go.Prelude.{
  ℕ, zero, suc, ◌-◌, ◌<◌, ℤ, pos, int_eq, beq_ℤ_iff, leb_ℤ, ◌≤ℤ◌, ◌<ℤ◌, String, Bool, true, false,
  ◌==◌, List, [], ◌∷◌, ◌++◌, keep_last, drop, length, All, ◌≡◌, refl, ap, sym, ◌∙◌, arith,
  Bool-cases, inl, inr, if_cases, if_false, All-map,
}
use rapido_go.Logstream.Ring.{Entry, ring_size}
use rapido_go.NodeLive.Lines.{
  NodeLog, is_new, entry_of, new_entries, insert_entry, sort_entries, dedup_after, dedup,
  prepare_node_logs,
}
use rapido_go.NodeLive.{last_id}

-- Ids that grow strictly from a bound on, and ids that do not fall.
abbrev pub Above : ℤ → List Entry → Type 0
Above lo [] = Unit {0}
Above lo (e ∷ es) = (lo <ℤ e.id) × Above e.id es

abbrev pub From : ℤ → List Entry → Type 0
From lo [] = Unit {0}
From lo (e ∷ es) = (lo ≤ℤ e.id) × From e.id es

pub Above-weaken : (lo hi : ℤ) (es : List Entry) → lo ≤ℤ hi → Above hi es → Above lo es
Above-weaken lo hi [] h a = tt
Above-weaken lo hi (e ∷ es) h a = (omega arith, a.1)

pub Above-drop : (lo : ℤ) (n : ℕ) (es : List Entry) → Above lo es → Above lo (drop n es)
Above-drop lo zero es a = a
Above-drop lo (suc n) [] a = tt
Above-drop lo (suc n) (e ∷ es) a = Above-drop lo n es (Above-weaken lo e.id es (omega arith) a.1)

pub Above-append :
    (lo : ℤ) (es fs : List Entry) → Above lo es → Above (last_id lo es) fs → Above lo (es ++ fs)
Above-append lo [] fs a b = b
Above-append lo (e ∷ es) fs a b = (a.0, Above-append e.id es fs a.1 b)

pub last_id-append :
    (lo : ℤ) (es fs : List Entry) → last_id lo (es ++ fs) ≡ last_id (last_id lo es) fs
last_id-append lo [] fs = refl
last_id-append lo (e ∷ es) fs = last_id-append e.id es fs

-- Dropping from the front leaves the last element, where one is left.
pub last_id-drop :
    (lo : ℤ) (n : ℕ) (es : List Entry) → n < length es → last_id lo (drop n es) ≡ last_id lo es
last_id-drop lo zero es h = refl
last_id-drop lo (suc n) [] h = elim h [ ]
last_id-drop lo (suc n) (e ∷ []) h = absurd (omega arith)
last_id-drop lo (suc n) (e ∷ f ∷ es) h = last_id-drop lo n (f ∷ es) (omega arith)

From-insert_entry :
    (lo : ℤ) (e : Entry) (es : List Entry) → lo ≤ℤ e.id → From lo es → From lo (insert_entry e es)
unfolding insert_entry
From-insert_entry lo e [] h a = (h, tt)
From-insert_entry lo e (f ∷ es) h a =
    if_cases (From lo) (leb_ℤ e.id f.id) _ _ (λ le. (h, (ground (arith, le), a.1)))
      (λ gt. (a.0, From-insert_entry f.id e es (ground (arith, gt)) a.1))

module _ {κ} (P : Entry → Type κ) where
  All-insert_entry : (e : Entry) (es : List Entry) → P e → All P es → All P (insert_entry e es)
  unfolding insert_entry
  All-insert_entry e [] h a = (h, tt)
  All-insert_entry e (f ∷ es) h a =
      if_cases (All P) (leb_ℤ e.id f.id) _ _ (λ le. (h, (a.0, a.1)))
        (λ gt. (a.0, All-insert_entry e es h a.1))

  All-insert_entry_of : (e : Entry) (es : List Entry) → All P (insert_entry e es) → P e × All P es
  unfolding insert_entry
  All-insert_entry_of e [] = λ a. (a.0, tt)
  All-insert_entry_of e (f ∷ es) =
      if_cases (λ r. All P r → P e × (P f × All P es)) (leb_ℤ e.id f.id) _ _
        (λ le a. (a.0, (a.1.0, a.1.1)))
        (λ gt a. let b = All-insert_entry_of e es a.1 in (b.0, (a.0, b.1)))

  All-sort_entries : (es : List Entry) → All P es → All P (sort_entries es)
  unfolding sort_entries
  All-sort_entries [] a = tt
  All-sort_entries (e ∷ es) a = All-insert_entry e (sort_entries es) a.0 (All-sort_entries es a.1)

  All-sort_entries_of : (es : List Entry) → All P (sort_entries es) → All P es
  unfolding sort_entries
  All-sort_entries_of [] a = tt
  All-sort_entries_of (e ∷ es) a =
      let b = All-insert_entry_of e (sort_entries es) a in (b.0, All-sort_entries_of es b.1)

sort_entries-From :
    (lo : ℤ) (es : List Entry) → All (λ e. lo ≤ℤ e.id) es → From lo (sort_entries es)
unfolding sort_entries
sort_entries-From lo [] a = tt
sort_entries-From lo (e ∷ es) a =
    From-insert_entry lo e (sort_entries es) a.0 (sort_entries-From lo es a.1)

dedup_after-Above : (lo : ℤ) (es : List Entry) → From lo es → Above lo (dedup_after lo es)
unfolding dedup_after
dedup_after-Above lo [] a = tt
dedup_after-Above lo (e ∷ es) a =
    if_cases (Above lo) (lo == e.id) _ _
      (λ same. dedup_after-Above lo es (rw (sym ((beq_ℤ_iff lo e.id).0 same)) at a.1))
      (λ new. (ground (arith, new), dedup_after-Above e.id es a.1))

-- The last of what is kept is the last of all.
last_id-dedup_after :
    (lo : ℤ) (es : List Entry) → From lo es → last_id lo (dedup_after lo es) ≡ last_id lo es
unfolding dedup_after
last_id-dedup_after lo [] a = refl
last_id-dedup_after lo (e ∷ es) a =
    if_cases (λ r. last_id lo r ≡ last_id e.id es) (lo == e.id) _ _
      (λ same.
        let here : lo ≡ e.id = (beq_ℤ_iff lo e.id).0 same in
        last_id-dedup_after lo es (rw (sym here) at a.1) ∙ ap (λ x. last_id x es) here)
      (λ new. last_id-dedup_after e.id es a.1)

last_id-ge : (lo : ℤ) (es : List Entry) → From lo es → lo ≤ℤ last_id lo es
last_id-ge lo [] a = omega arith
last_id-ge lo (e ∷ es) a = omega (arith, last_id-ge e.id es a.1)

le_self : (a : ℤ) → a ≤ℤ a
le_self a = omega arith

All-last_id :
    (lo hi : ℤ) (es : List Entry) → From lo es → last_id lo es ≤ℤ hi → All (λ e. e.id ≤ℤ hi) es
All-last_id lo hi [] a h = tt
All-last_id lo hi (e ∷ es) a h =
    (omega (arith, last_id-ge e.id es a.1), All-last_id e.id hi es a.1 h)

dedup-Above :
    (lo : ℤ) (es : List Entry) → All (λ e. lo <ℤ e.id) es → From lo es → Above lo (dedup es)
unfolding dedup
dedup-Above lo [] h a = tt
dedup-Above lo (e ∷ es) h a = (h.0, dedup_after-Above e.id es a.1)

last_id-dedup : (lo : ℤ) (es : List Entry) → From lo es → last_id lo (dedup es) ≡ last_id lo es
unfolding dedup
last_id-dedup lo [] a = refl
last_id-dedup lo (e ∷ es) a = last_id-dedup_after e.id es a.1

pub last_id-keep_last :
    (lo : ℤ) (es : List Entry) → last_id lo (keep_last ring_size es) ≡ last_id lo es
last_id-keep_last lo [] = refl
last_id-keep_last lo (e ∷ es) = last_id-drop lo _ (e ∷ es) (omega arith)

true-ne-false : (b : Bool) → b ≡ true → b ≡ false → ⊥
true-ne-false b p q = cc

is_new-stale :
    (hi stored : ℤ) (l : NodeLog)
    → stored ≤ℤ hi
    → (is_new stored l ≡ true → l.id ≤ℤ hi)
    → is_new hi l ≡ false
is_new-stale hi stored l h below = elim (Bool-cases (is_new stored l)) [
  | inl new ↦ let le = below new in ground (arith, le)
  | inr old ↦ ground (arith, old)
]

module _ (fold : String → String) (ts_from_id : ℤ → String) where
  new_entries-gt :
      (lo stored : ℤ) (logs : List NodeLog)
      → ((id : ℤ) → stored <ℤ id → pos 0 <ℤ id → lo <ℤ id)
      → All (λ e. lo <ℤ e.id) (new_entries fold ts_from_id stored logs)
  unfolding new_entries entry_of
  new_entries-gt lo stored [] h = tt
  new_entries-gt lo stored (l ∷ logs) h =
      if_cases (All (λ e. lo <ℤ e.id)) (is_new stored l) _ _
        (λ new.
          (h l.id (ground (arith, new)) (ground (arith, new)), new_entries-gt lo stored logs h))
        (λ old. new_entries-gt lo stored logs h)

  new_entries-stale :
      (hi stored : ℤ) (logs : List NodeLog)
      → stored ≤ℤ hi
      → All (λ e. e.id ≤ℤ hi) (new_entries fold ts_from_id stored logs)
      → new_entries fold ts_from_id hi logs ≡ []
  unfolding new_entries entry_of
  new_entries-stale hi stored [] h a = refl
  new_entries-stale hi stored (l ∷ logs) h a =
      let more : (is_new stored l ≡ true → l.id ≤ℤ hi)
          × All (λ e. e.id ≤ℤ hi) (new_entries fold ts_from_id stored logs) =
        if_cases
          (λ r.
            All (λ (e : Entry). e.id ≤ℤ hi) r
            → (is_new stored l ≡ true → l.id ≤ℤ hi)
              × All (λ e. e.id ≤ℤ hi) (new_entries fold ts_from_id stored logs))
          (is_new stored l) _ _ (λ new b. (λ _. b.0, b.1))
          (λ old b. (λ new. absurd (true-ne-false _ new old), b)) a in
      if_false (is_new hi l) _ _ (is_new-stale hi stored l h more.0)
      ∙ new_entries-stale hi stored logs h more.1

  module _ (lo stored : ℤ) (logs : List NodeLog)
      (above : (id : ℤ) → stored <ℤ id → pos 0 <ℤ id → lo <ℤ id) where
    sort_entries-From_new : From lo (sort_entries (new_entries fold ts_from_id stored logs))
    sort_entries-From_new = sort_entries-From lo (new_entries fold ts_from_id stored logs) (
        All-map (λ e. lo <ℤ e.id) (λ e. lo ≤ℤ e.id) _ (λ e lt. omega arith)
          (new_entries-gt lo stored logs above))

    -- Stored
    pub prepare_node_logs-Above : Above lo (prepare_node_logs fold ts_from_id logs stored)
    unfolding prepare_node_logs
    prepare_node_logs-Above =
        let es = sort_entries (new_entries fold ts_from_id stored logs) in
        Above-drop lo (length (dedup es) - ring_size) (dedup es) (
          dedup-Above lo es
            (All-sort_entries (λ e. lo <ℤ e.id) (new_entries fold ts_from_id stored logs)
              (new_entries-gt lo stored logs above))
            sort_entries-From_new)

  -- What was stored of a batch leaves nothing of it to store again.
  pub prepare_node_logs-again :
      (stored : ℤ) (logs : List NodeLog)
      → prepare_node_logs fold ts_from_id logs
          (last_id stored (prepare_node_logs fold ts_from_id logs stored))
        ≡ []
  unfolding prepare_node_logs
  prepare_node_logs-again stored logs =
      let xs = new_entries fold ts_from_id stored logs in
      let es = sort_entries xs in
      let from = sort_entries-From_new stored stored logs (λ id lt _. lt) in
      let hi : ℤ = last_id stored (keep_last ring_size (dedup es)) in
      let same : hi ≡ last_id stored es =
        last_id-keep_last stored (dedup es) ∙ last_id-dedup stored es from in
      ap (λ r. keep_last ring_size (dedup (sort_entries r)))
        (new_entries-stale hi stored logs (rw same (last_id-ge stored es from)) (
          All-sort_entries_of (λ e. e.id ≤ℤ hi) xs
            (All-last_id stored hi es from (rw same (le_self (last_id stored es))))))
