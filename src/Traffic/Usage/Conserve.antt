-- ===== src/Traffic/Usage/Conserve.antt =====
-- No byte is lost or reported twice over any calls of `Add` and `Drain`.
use rapido_go.Prelude.{
  ℤ, pos, ◌+ℤ◌, int64, int64-+ℤ, +ℤ_parts, eq_of_parts, beq_ℤ_iff, String, string_eq, ◌==◌, true,
  ◌&&◌, List, [], ◌∷◌, Assoc, lookup, insert, lookup-insert, if◌then◌else◌, ◌≡◌, refl, sym, ap, ◌∙◌,
  arith, Bool-cases, inl, inr,
}
use rapido_go.Prelude.Keys.{DistinctKeys, insert-DistinctKeys}
use rapido_go.Traffic.Usage.Drain.{if_moved_keeps, drain_lem, reset-DistinctKeys}
use rapido_go.Traffic.Usage.{Usage, Manager, or_none, is_zero, count_bytes, add, drain}

pub data Side : Type 0 where
  uplink : Side
  downlink : Side

abbrev pub amount : Side → Usage → ℤ
amount uplink c = c.up
amount downlink c = c.down

-- What a manager has counted for a user.
abbrev pub held : Side → String → Manager → ℤ
held s u m = amount s (or_none (lookup u m))

pub add-DistinctKeys :
    (m : Manager) (user : String) (up down : ℤ) → DistinctKeys m → DistinctKeys (add m user up down)
unfolding add
add-DistinctKeys m user up down h =
    ground (arith, insert-DistinctKeys user (count_bytes up down (or_none (lookup user m))) m)

-- Wrapping early changes no sum.
cong_add : (a b x : ℤ) → int64 a ≡ int64 b → int64 (a +ℤ x) ≡ int64 (b +ℤ x)
cong_add a b x h = sym (int64-+ℤ a x) ∙ ap (λ w. int64 (w +ℤ x)) h ∙ int64-+ℤ b x

+ℤ_zero : (a : ℤ) → a +ℤ pos 0 ≡ a
+ℤ_zero a = eq_of_parts _ _ (omega (arith, +ℤ_parts a (pos 0)))

+ℤ_assoc : (a b c : ℤ) → (a +ℤ b) +ℤ c ≡ a +ℤ (b +ℤ c)
+ℤ_assoc a b c =
    eq_of_parts _ _
      (omega (arith, +ℤ_parts (a +ℤ b) c, +ℤ_parts a b, +ℤ_parts a (b +ℤ c), +ℤ_parts b c))

int64_twice : (a : ℤ) → int64 (int64 a) ≡ int64 a
int64_twice a = ap int64 (sym (+ℤ_zero (int64 a))) ∙ int64-+ℤ a (pos 0) ∙ ap int64 (+ℤ_zero a)

-- One counter takes its share of the bytes.
int64-count : (a b : ℤ) → int64 (if is_zero b then a else int64 (a +ℤ b)) ≡ int64 (a +ℤ b)
int64-count a b = elim (Bool-cases (is_zero b)) [
  | inl e ↦ rw e (rw ((beq_ℤ_iff b (pos 0)).0 e) (ap int64 (sym (+ℤ_zero a))))
  | inr e ↦ rw e (int64_twice (a +ℤ b))
]

amount-count_bytes :
    (s : Side) (up down : ℤ) (c : Usage)
    → int64 (amount s (count_bytes up down c))
      ≡ int64 (amount s c +ℤ amount s (record { up = up; down = down }))
unfolding count_bytes
amount-count_bytes uplink up down c = int64-count c.up up
amount-count_bytes downlink up down c = int64-count c.down down

-- What a call of Add counts for a user.
abbrev pub share : Side → String → String → ℤ → ℤ → ℤ
share s u user up down = if user == u then amount s (record { up = up; down = down }) else pos 0

amount_zero :
    (s : Side) (up down : ℤ)
    → (is_zero up && is_zero down) ≡ true
    → amount s (record { up = up; down = down }) ≡ pos 0
amount_zero uplink up down h = ground (arith, eq_of_parts up (pos 0))
amount_zero downlink up down h = ground (arith, eq_of_parts down (pos 0))

share_zero :
    (s : Side) (u user : String) (up down : ℤ)
    → (is_zero up && is_zero down) ≡ true
    → share s u user up down ≡ pos 0
share_zero s u user up down z = elim (Bool-cases (user == u)) [
  | inl e ↦ rw e (amount_zero s up down z)
  | inr e ↦ rw e refl
]

held-insert :
    (s : Side) (u : String) (m : Manager) (user : String) (c : Usage)
    → held s u (insert user c m) ≡ (if user == u then amount s c else held s u m)
held-insert s u m user c =
    rw (lookup-insert user u c m)
      (elim (Bool-cases (user == u)) [ inl e ↦ rw e refl | inr e ↦ rw e refl ])

held-add :
    (s : Side) (u : String) (m : Manager) (user : String) (up down : ℤ)
    → int64 (held s u (add m user up down)) ≡ int64 (held s u m +ℤ share s u user up down)
unfolding add
held-add s u m user up down = elim (Bool-cases (is_zero up && is_zero down)) [
  | inl z ↦ rw z (rw (share_zero s u user up down z) (ap int64 (sym (+ℤ_zero (held s u m)))))
  | inr z ↦
      let c : Usage = count_bytes up down (or_none (lookup user m)) in
      elim (Bool-cases (user == u)) [
        | inl e ↦ rw z (
            rw (held-insert s u m user c) (
              rw e (
                rw (← (string_eq.beq_path user u).0 e)
                  (amount-count_bytes s up down (or_none (lookup user m))))))
        | inr e ↦
            rw z (rw (held-insert s u m user c) (rw e (ap int64 (sym (+ℤ_zero (held s u m))))))
      ]
]

pub data Call : Type 0 where
  adds : String → ℤ → ℤ → Call
  drains : Call

-- The manager and the reports that the calls leave, the first report first.
abbrev pub run : List Call → Manager → Manager × List (Assoc String Usage)
run [] m = (m, [])
run (adds user up down ∷ calls) m = run calls (add m user up down)
run (drains ∷ calls) m = let rest = run calls (drain m).0 in (rest.0, (drain m).1 ∷ rest.1)

abbrev pub reported : Side → String → List (Assoc String Usage) → ℤ
reported s u [] = pos 0
reported s u (r ∷ reports) = held s u r +ℤ reported s u reports

abbrev pub added : Side → String → List Call → ℤ
added s u [] = pos 0
added s u (adds user up down ∷ calls) = share s u user up down +ℤ added s u calls
added s u (drains ∷ calls) = added s u calls

held-drained :
    (s : Side) (u : String) (m : Manager) → DistinctKeys m → held s u (drain m).1 ≡ held s u m
held-drained s u m h = rw (drain_lem m u h).0 (rw (if_moved_keeps (lookup u m)) refl)

held-reset : (s : Side) (u : String) (m : Manager) → DistinctKeys m → held s u (drain m).0 ≡ pos 0
held-reset uplink u m h = rw (drain_lem m u h).1 refl
held-reset downlink u m h = rw (drain_lem m u h).1 refl

drain-DistinctKeys : (m : Manager) → DistinctKeys m → DistinctKeys (drain m).0
unfolding drain
drain-DistinctKeys m h = reset-DistinctKeys m h

turn_out : (a b c : ℤ) → (a +ℤ b) +ℤ c ≡ (b +ℤ c) +ℤ a
turn_out a b c =
    eq_of_parts _ _
      (omega (arith, +ℤ_parts (a +ℤ b) c, +ℤ_parts a b, +ℤ_parts (b +ℤ c) a, +ℤ_parts b c))

turn_in : (z a r : ℤ) → z ≡ pos 0 → (z +ℤ a) +ℤ r ≡ r +ℤ a
turn_in z a r h =
    rw h
      (eq_of_parts _ _ (omega (arith, +ℤ_parts (pos 0 +ℤ a) r, +ℤ_parts (pos 0) a, +ℤ_parts r a)))

run_from :
    (s : Side) (u : String) (calls : List Call) (m : Manager)
    → DistinctKeys m
    → int64 (reported s u (run calls m).1 +ℤ held s u (run calls m).0)
      ≡ int64 (held s u m +ℤ added s u calls)
run_from s u [] m h =
    ap int64 (
      eq_of_parts _ _ (omega (arith, +ℤ_parts (pos 0) (held s u m), +ℤ_parts (held s u m) (pos 0))))
run_from s u (adds user up down ∷ calls) m h =
    run_from s u calls (add m user up down) (add-DistinctKeys m user up down h)
    ∙ cong_add _ _ (added s u calls) (held-add s u m user up down)
    ∙ ap int64 (+ℤ_assoc (held s u m) (share s u user up down) (added s u calls))
run_from s u (drains ∷ calls) m h =
    let r : ℤ = held s u (drain m).1 in
    let rest : ℤ = reported s u (run calls (drain m).0).1 in
    let left : ℤ = held s u (run calls (drain m).0).0 in
    ap int64 (turn_out r rest left)
    ∙ cong_add _ _ r (run_from s u calls (drain m).0 (drain-DistinctKeys m h))
    ∙ ap int64 (turn_in (held s u (drain m).0) (added s u calls) r (held-reset s u m h))
    ∙ ap (λ x. int64 (x +ℤ added s u calls)) (held-drained s u m h)

held_none : (s : Side) (u : String) (x : ℤ) → held s u [] +ℤ x ≡ x
held_none uplink u x = eq_of_parts _ _ (omega (arith, +ℤ_parts (pos 0) x))
held_none downlink u x = eq_of_parts _ _ (omega (arith, +ℤ_parts (pos 0) x))

-- Over any calls of `Add` and `Drain` on a new manager, what the drains report for a user and
-- what is still counted add up to what `Add` was given for the user, modulo 2^64, in each
-- direction.
pub run_lem :
    (s : Side) (u : String) (calls : List Call)
    → int64 (reported s u (run calls []).1 +ℤ held s u (run calls []).0) ≡ int64 (added s u calls)
run_lem s u calls = run_from s u calls [] tt ∙ ap int64 (held_none s u (added s u calls))
