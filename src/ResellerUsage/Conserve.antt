-- ===== src/ResellerUsage/Conserve.antt =====
-- No traffic is lost, and none is sent twice while reports can be marked.
use rapido_go.Prelude.{
  ℤ, pos, ◌+ℤ◌, ◌≤ℤ◌, int_eq, int_laws, Bool, true, false, ◌==◌, Option, none, some, List, [], ◌∷◌,
  All, Assoc, lookup, lookup-insert, Bool-cases, inl, inr, ◌≡◌, refl, sym, ap, ◌∙◌, arith,
}
use mathlib.Core.Path.{subst}
use rapido_go.ResellerUsage.{
  Row, row_or, grown, pending_usage, State, new_state, sent_or_done, start_tick, finish_out,
  finish_tick,
}
use rapido_go.ResellerUsage.Books.{
  Event, queued, starts, ends, step, run, amount, queued_by, total_of, accepted_of, out_of,
  mark_opt, AllGood, lookup-mark_reported, zero_more, step-AllGood, run-AllGood, start_idle,
}

abbrev pub row_of : ℤ → State → Row
row_of j s = row_or (lookup j s.queue)

abbrev Exact : State → Type 0
Exact s = (j : ℤ) → (row_of j s).reported ≡ accepted_of j s.accepted

-- That every report that the bot accepts can be marked.
abbrev pub IsMarked : Event → Type 0
IsMarked (queued id delta) = Unit
IsMarked (starts can loads) = Unit
IsMarked (ends accepts marks) = accepts ≡ true → marks ≡ true

mark_exact :
    (acc : ℤ) (sent : Option ℤ) (o : Option Row)
    → (o ≡ none → sent ≡ none)
    → (row_or o).reported ≡ acc
    → (row_or (mark_opt sent o)).reported ≡ (amount sent +ℤ acc)
mark_exact acc none none h e = e ∙ zero_more acc
mark_exact acc (some a) none h e = absurd (let clash = h refl in ground (arith, clash))
mark_exact acc none (some r) h e = e ∙ zero_more acc
mark_exact acc (some a) (some r) h e = grind (int_laws, e)

enqueue-Exact : (s : State) (id delta : ℤ) → Exact s → Exact (step s (queued id delta))
enqueue-Exact s id delta h j = elim (Bool-cases (id == j)) [
  | inl t ↦ rw (lookup-insert id j (grown delta (row_or (lookup id s.queue))) s.queue) (
      rw t (
        subst (λ k. (row_or (lookup id s.queue)).reported ≡ accepted_of k s.accepted)
          ((int_eq.beq_path id j).0 t) (h id)))
  | inr t ↦ rw (lookup-insert id j (grown delta (row_or (lookup id s.queue))) s.queue) (rw t (h j))
]

start_tick-Exact :
    (s : State) (can : Option Bool) (loads : Bool) → Exact s → Exact (start_tick can loads s).0
unfolding start_tick
start_tick-Exact s none loads h = h
start_tick-Exact s (some false) loads h = h
start_tick-Exact s (some true) false h = h
start_tick-Exact s (some true) true h = loaded (pending_usage s.queue)
  where
    loaded : (sent : Assoc ℤ ℤ) → Exact (sent_or_done s sent).0
    loaded [] j = h j
    loaded (u ∷ us) j = h j

start_idle-Exact :
    (s : State) (can : Option Bool) (loads : Bool) (o : Option (Assoc ℤ ℤ))
    → Exact s
    → Exact (start_idle can loads s o)
start_idle-Exact s can loads none h = start_tick-Exact s can loads h
start_idle-Exact s can loads (some sent) h = h

finish_out-Exact :
    (total : ℤ → ℤ) (s : State) (accepts marks : Bool) (o : Option (Assoc ℤ ℤ))
    → s.out ≡ o
    → AllGood total s
    → Exact s
    → (accepts ≡ true → marks ≡ true)
    → Exact (finish_out accepts marks s o).0
finish_out-Exact total s accepts marks none e g h m j = h j
finish_out-Exact total s false marks (some sent) e g h m j = h j
finish_out-Exact total s true false (some sent) e g h m j =
    absurd (let clash = m refl in ground (arith, clash))
finish_out-Exact total s true true (some sent) e g h m j =
    ap (λ o. (row_or o).reported) (lookup-mark_reported sent s.queue j)
    ∙ mark_exact (accepted_of j s.accepted) (lookup j sent) (lookup j s.queue)
        (λ f. sym (ap (out_of j) e) ∙ (g j).3 f) (h j)

run-Exact :
    (total : ℤ → ℤ) (s : State) (es : List Event)
    → AllGood total s
    → Exact s
    → All IsMarked es
    → Exact (run s es)
unfolding finish_tick
run-Exact total s [] g h m = h
run-Exact total s (queued id delta ∷ es) g h m =
    run-Exact (λ k. queued_by k (queued id delta) +ℤ total k) (step s (queued id delta)) es
      (step-AllGood total s (queued id delta) g) (enqueue-Exact s id delta h) m.1
run-Exact total s (starts can loads ∷ es) g h m =
    run-Exact (λ k. queued_by k (starts can loads) +ℤ total k) (step s (starts can loads)) es
      (step-AllGood total s (starts can loads) g) (start_idle-Exact s can loads s.out h) m.1
run-Exact total s (ends accepts marks ∷ es) g h m =
    run-Exact (λ k. queued_by k (ends accepts marks) +ℤ total k) (step s (ends accepts marks)) es
      (step-AllGood total s (ends accepts marks) g)
      (finish_out-Exact total s accepts marks s.out refl g h m.0) m.1

no_total : (t : ℤ) → (t +ℤ pos 0) ≡ t
no_total t = grind int_laws

new-AllGood : AllGood (λ k. pos 0) new_state
new-AllGood k = (grind int_laws, ground arith, ground arith, λ e. refl)

-- After any traffic queued, any ticks and any answers to their reports, what the queue has as
-- pending and as reported of an admin adds up to what was queued, and no more is marked as reported
-- than the bot has accepted: exactly that where every accepted report could be marked.
pub run_conserves :
    (es : List Event) (j : ℤ)
    → (((row_of j (run new_state es)).pending +ℤ (row_of j (run new_state es)).reported)
        ≡ total_of j es)
      × ((row_of j (run new_state es)).reported ≤ℤ accepted_of j (run new_state es).accepted)
      × (All IsMarked es
          → (row_of j (run new_state es)).reported ≡ accepted_of j (run new_state es).accepted)
run_conserves es j =
    let good = run-AllGood (λ k. pos 0) new_state es new-AllGood j in
    (
      good.0 ∙ no_total (total_of j es),
      good.1,
      λ m. run-Exact (λ k. pos 0) new_state es new-AllGood (λ k. refl) m j,
    )
