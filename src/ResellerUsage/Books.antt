-- ===== src/ResellerUsage/Books.antt =====
-- The books of an admin over any run of events.
use rapido_go.Prelude.{
  ℤ, pos, ◌+ℤ◌, ◌-ℤ◌, ◌≤ℤ◌, ltb_ℤ, int_eq, int_laws, Bool, true, false, ◌==◌, Option, none, some,
  List, [], ◌∷◌, Assoc, lookup, lookup-insert, if◌then◌else◌, Bool-cases, inl, inr, ◌≡◌, refl, sym,
  ap, ◌∙◌, arith,
}
use mathlib.Core.Path.{subst}
use rapido_go.ResellerUsage.{
  Row, Queue, row_or, grown, enqueue, pending_usage, marked, mark_reported, State, sent_or_done,
  start_tick, finish_sent, finish_out, finish_tick,
}

-- Traffic is queued, a tick starts, and its report is answered.
pub data Event : Type 0 where
  queued : ℤ → ℤ → Event
  starts : Option Bool → Bool → Event
  ends : Bool → Bool → Event

abbrev pub start_idle : Option Bool → Bool → State → Option (Assoc ℤ ℤ) → State
start_idle can loads s none = (start_tick can loads s).0
start_idle can loads s (some sent) = s

-- One job: no tick starts while a report is under way.
abbrev pub step : State → Event → State
step s (queued id delta) = record s { queue = enqueue id delta s.queue }
step s (starts can loads) = start_idle can loads s s.out
step s (ends accepts marks) = (finish_tick accepts marks s).0

abbrev pub run : State → List Event → State
run s [] = s
run s (e ∷ es) = run (step s e) es

abbrev pub amount : Option ℤ → ℤ
amount none = pos 0
amount (some a) = a

abbrev pub queued_by : ℤ → Event → ℤ
queued_by j (queued id delta) = if id == j then delta else pos 0
queued_by j (starts can loads) = pos 0
queued_by j (ends accepts marks) = pos 0

-- What was queued of an admin, and what the bot accepted.
abbrev pub total_of : ℤ → List Event → ℤ
total_of j [] = pos 0
total_of j (e ∷ es) = queued_by j e +ℤ total_of j es

abbrev pub accepted_of : ℤ → List (Assoc ℤ ℤ) → ℤ
accepted_of j [] = pos 0
accepted_of j (r ∷ rs) = amount (lookup j r) +ℤ accepted_of j rs

abbrev pub out_of : ℤ → Option (Assoc ℤ ℤ) → Option ℤ
out_of j none = none
out_of j (some sent) = lookup j sent

-- The books of one admin, by the row of the queue and by what is under way.
abbrev pub Good : ℤ → ℤ → Option ℤ → Option Row → Type 0
Good total acc out o =
    (((row_or o).pending +ℤ (row_or o).reported) ≡ total)
    × ((row_or o).reported ≤ℤ acc)
    × (pos 0 ≤ℤ amount out)
    × (o ≡ none → out ≡ none)

abbrev pub mark_opt : Option ℤ → Option Row → Option Row
mark_opt sent none = none
mark_opt sent (some r) = some (marked sent r)

pub lookup-mark_reported :
    (sent : Assoc ℤ ℤ) (q : Queue) (j : ℤ)
    → lookup j (mark_reported sent q) ≡ mark_opt (lookup j sent) (lookup j q)
lookup-mark_reported sent [] j = refl
lookup-mark_reported sent ((id, r) ∷ q) j = elim (Bool-cases (id == j)) [
  | inl t ↦ rw t (ap (λ k. some (marked (lookup k sent) r)) ((int_eq.beq_path id j).0 t))
  | inr t ↦ rw t (lookup-mark_reported sent q j)
]

-- What a report of what is pending has of an admin.
abbrev pub Fits : Option ℤ → Option Row → Type 0
Fits sent o = (pos 0 ≤ℤ amount sent) × (o ≡ none → sent ≡ none)

pending_usage-Fits : (q : Queue) (j : ℤ) → Fits (lookup j (pending_usage q)) (lookup j q)
pending_usage-Fits [] j = (ground arith, λ e. refl)
pending_usage-Fits ((id, r) ∷ q) j = elim (Bool-cases (ltb_ℤ (pos 0) r.pending)) [
  | inl p ↦ elim (Bool-cases (id == j)) [
    | inl t ↦ rw p (rw t (ground (arith, p), λ e. absurd (ground (arith, e))))
    | inr t ↦ rw p (rw t (pending_usage-Fits q j))
  ]
  | inr p ↦ elim (Bool-cases (id == j)) [
    | inl t ↦ rw p (rw t ((pending_usage-Fits q j).0, λ e. absurd (ground (arith, e))))
    | inr t ↦ rw p (rw t (pending_usage-Fits q j))
  ]
]

moved : (p r a : ℤ) → ((p -ℤ a) +ℤ (r +ℤ a)) ≡ (p +ℤ r)
moved p r a = grind int_laws

mark-Good :
    (total acc : ℤ) (sent : Option ℤ) (o : Option Row)
    → Good total acc sent o
    → Good total (amount sent +ℤ acc) none (mark_opt sent o)
mark-Good total acc none none h = (h.0, grind (int_laws, h.1), ground arith, λ e. refl)
mark-Good total acc (some a) none h = absurd (let clash = h.3 refl in ground (arith, clash))
mark-Good total acc none (some r) h = (h.0, grind (int_laws, h.1), ground arith, λ e. refl)
mark-Good total acc (some a) (some r) h =
    (moved r.pending r.reported a ∙ h.0, grind (int_laws, h.1), ground arith, λ e. refl)

-- The books of every admin.
abbrev pub AllGood : (ℤ → ℤ) → State → Type 0
AllGood total s =
    (j : ℤ) → Good (total j) (accepted_of j s.accepted) (out_of j s.out) (lookup j s.queue)

queued_more : (p r t d : ℤ) → (p +ℤ r) ≡ t → ((p +ℤ d) +ℤ r) ≡ (d +ℤ t)
queued_more p r t d h = grind (int_laws, h)

pub zero_more : (t : ℤ) → t ≡ (pos 0 +ℤ t)
zero_more t = grind int_laws

enqueue-AllGood :
    (total : ℤ → ℤ) (s : State) (id delta : ℤ)
    → AllGood total s
    → AllGood (λ j. queued_by j (queued id delta) +ℤ total j) (step s (queued id delta))
enqueue-AllGood total s id delta h j = elim (Bool-cases (id == j)) [
  | inl t ↦
      let same : id ≡ j = (int_eq.beq_path id j).0 t in
      let r : Row = row_or (lookup id s.queue) in
      let here : Good (total id) (accepted_of id s.accepted) (out_of id s.out) (lookup id s.queue) =
        h id in
      rw (lookup-insert id j (grown delta r) s.queue) (
        rw t (
          subst
            (λ k.
              Good (delta +ℤ total k) (accepted_of k s.accepted) (out_of k s.out)
                (some (grown delta r)))
            same
            (
              queued_more r.pending r.reported (total id) delta here.0,
              here.1,
              here.2,
              λ e. absurd (ground (arith, e)),
            )))
  | inr t ↦ rw (lookup-insert id j (grown delta (row_or (lookup id s.queue))) s.queue) (
      rw t (
        subst (λ k. Good k (accepted_of j s.accepted) (out_of j s.out) (lookup j s.queue))
          (zero_more (total j)) (h j)))
]

start_tick-AllGood :
    (total : ℤ → ℤ) (s : State) (can : Option Bool) (loads : Bool)
    → AllGood total s
    → AllGood total (start_tick can loads s).0
unfolding start_tick
start_tick-AllGood total s none loads h = h
start_tick-AllGood total s (some false) loads h = h
start_tick-AllGood total s (some true) false h = h
start_tick-AllGood total s (some true) true h =
    loaded (pending_usage s.queue) (pending_usage-Fits s.queue)
  where
    loaded :
        (sent : Assoc ℤ ℤ)
        → ((j : ℤ) → Fits (lookup j sent) (lookup j s.queue))
        → AllGood total (sent_or_done s sent).0
    loaded [] f j = h j
    loaded (u ∷ us) f j = ((h j).0, (h j).1, (f j).0, (f j).1)

finish_sent-AllGood :
    (total : ℤ → ℤ) (s : State) (accepts marks : Bool) (sent : Assoc ℤ ℤ)
    → s.out ≡ some sent
    → AllGood total s
    → AllGood total (finish_sent accepts marks sent s).0
finish_sent-AllGood total s false marks sent e h j = ((h j).0, (h j).1, ground arith, λ f. refl)
finish_sent-AllGood total s true false sent e h j =
    let here : Good (total j) (accepted_of j s.accepted) (lookup j sent) (lookup j s.queue) =
      subst (λ o. Good (total j) (accepted_of j s.accepted) (out_of j o) (lookup j s.queue)) e
        (h j) in
    (here.0, grind (int_laws, here.1, here.2), ground arith, λ f. refl)
finish_sent-AllGood total s true true sent e h j =
    subst (Good (total j) (amount (lookup j sent) +ℤ accepted_of j s.accepted) none)
      (sym (lookup-mark_reported sent s.queue j))
      (mark-Good (total j) (accepted_of j s.accepted) (lookup j sent) (lookup j s.queue) (
        subst (λ o. Good (total j) (accepted_of j s.accepted) (out_of j o) (lookup j s.queue)) e
          (h j)))

finish_out-AllGood :
    (total : ℤ → ℤ) (s : State) (accepts marks : Bool) (o : Option (Assoc ℤ ℤ))
    → s.out ≡ o
    → AllGood total s
    → AllGood total (finish_out accepts marks s o).0
finish_out-AllGood total s accepts marks none e h = h
finish_out-AllGood total s accepts marks (some sent) e h =
    finish_sent-AllGood total s accepts marks sent e h

start_idle-AllGood :
    (total : ℤ → ℤ) (s : State) (can : Option Bool) (loads : Bool) (o : Option (Assoc ℤ ℤ))
    → AllGood total s
    → AllGood total (start_idle can loads s o)
start_idle-AllGood total s can loads none h = start_tick-AllGood total s can loads h
start_idle-AllGood total s can loads (some sent) h = h

same_total : (total : ℤ → ℤ) (s : State) → AllGood total s → AllGood (λ j. pos 0 +ℤ total j) s
same_total total s h j =
    subst (λ k. Good k (accepted_of j s.accepted) (out_of j s.out) (lookup j s.queue))
      (zero_more (total j)) (h j)

pub step-AllGood :
    (total : ℤ → ℤ) (s : State) (e : Event)
    → AllGood total s
    → AllGood (λ j. queued_by j e +ℤ total j) (step s e)
unfolding finish_tick
step-AllGood total s (queued id delta) h = enqueue-AllGood total s id delta h
step-AllGood total s (starts can loads) h =
    same_total total (start_idle can loads s s.out) (start_idle-AllGood total s can loads s.out h)
step-AllGood total s (ends accepts marks) h =
    same_total total (finish_out accepts marks s s.out).0
      (finish_out-AllGood total s accepts marks s.out refl h)

moved_sum : (a b c : ℤ) → (b +ℤ (a +ℤ c)) ≡ ((a +ℤ b) +ℤ c)
moved_sum a b c = grind int_laws

pub run-AllGood :
    (total : ℤ → ℤ) (s : State) (es : List Event)
    → AllGood total s
    → AllGood (λ j. total_of j es +ℤ total j) (run s es)
run-AllGood total s [] h j = same_total total s h j
run-AllGood total s (e ∷ es) h j =
    subst
      (λ k.
        Good k (accepted_of j (run s (e ∷ es)).accepted) (out_of j (run s (e ∷ es)).out)
          (lookup j (run s (e ∷ es)).queue))
      (moved_sum (queued_by j e) (total_of j es) (total j))
      (run-AllGood (λ k. queued_by k e +ℤ total k) (step s e) es (step-AllGood total s e h) j)
