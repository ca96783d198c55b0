-- ===== src/UsageSweep/Batches.antt =====
-- A sweep ends, and what it removes.
use rapido_go.Prelude.{
  ℕ, zero, suc, ◌+◌, ◌<◌, ◌≤◌, ◌^◌, ℤ, pos, ltb_ℤ, int32_small, Bool, not, List, [], ◌∷◌, length,
  select, if_cases, Bool-cases, inl, inr, ◌≡◌, ◌≢◌, refl, ap, ◌∙◌, arith,
}
use rapido_go.Prelude.Count.{count}
use rapido_go.UsageSweep.{
  delete_old, Fate, answers, fails, lost, finished, query_failed, no_fuel, Swept, after_batch,
  after_fate, sweep_round, sweep_from, sweep,
}

abbrev pub old : ℤ → List ℤ → ℕ
old cutoff rows = count (λ t. ltb_ℤ t cutoff) rows

abbrev pub recent : ℤ → List ℤ → List ℤ
recent cutoff rows = select (λ t. not (ltb_ℤ t cutoff)) rows

-- What one statement removes: old rows alone, all of them where it removes fewer than the limit.
abbrev Removes : ℤ → ℕ → List ℤ → ℕ × List ℤ → Type 0
Removes cutoff limit rows r =
    (r.0 + old cutoff r.1 ≡ old cutoff rows)
    × (recent cutoff r.1 ≡ recent cutoff rows)
    × (r.0 < limit → old cutoff r.1 ≡ 0)
    × (r.0 + length r.1 ≡ length rows)
    × (r.0 ≤ limit)

delete_old-Removes :
    (cutoff : ℤ) (limit : ℕ) (rows : List ℤ)
    → Removes cutoff limit rows (delete_old cutoff limit rows)
unfolding count
delete_old-Removes cutoff limit [] = (refl, refl, (λ h. refl), refl, omega arith)
delete_old-Removes cutoff zero (t ∷ ts) =
    (omega arith, refl, (λ h. absurd (omega arith)), omega arith, omega arith)
delete_old-Removes cutoff (suc limit) (t ∷ ts) = elim (Bool-cases (ltb_ℤ t cutoff)) [
  | inl e ↦
      let rest = delete_old-Removes cutoff limit ts in
      rw e (
        omega (arith, rest.0),
        rest.1,
        (λ h. rest.2 (omega arith)),
        omega (arith, rest.3),
        omega (arith, rest.4),
      )
  | inr e ↦
      let rest = delete_old-Removes cutoff (suc limit) ts in
      rw e (
        rw e (
          omega (arith, rest.0),
          ap (λ r. t ∷ r) rest.1,
          (λ h. omega (arith, rest.2 h)),
          omega (arith, rest.3),
          rest.4,
        ))
]

-- A sweep that ends, that counts what it removed, of which a failed statement may have removed one
-- batch more, and that removed old rows alone: all of them where it finished.
abbrev pub Sweeps : ℤ → ℕ → ℕ → List ℤ → Swept → Type 0
Sweeps cutoff size total rows s =
    (s.ending ≢ no_fuel)
    × (s.ending ≢ query_failed → s.total + old cutoff s.rows ≡ total + old cutoff rows)
    × (s.total + old cutoff s.rows ≤ total + old cutoff rows)
    × (total + old cutoff rows ≤ s.total + old cutoff s.rows + size)
    × (recent cutoff s.rows ≡ recent cutoff rows)
    × (s.ending ≡ finished → old cutoff s.rows ≡ 0)

module _ (fate : ℕ → Fate) (cancels : ℕ → Bool) (cutoff : ℤ) (size : ℕ) (full : 0 < size)
    (small : size < 2 ^ 31) where
  after_batch-Sweeps :
      (loop : ℕ → List ℤ → Swept) (round total : ℕ) (rows : List ℤ) (r : ℕ × List ℤ)
      → Removes cutoff size rows r
      → ((t : ℕ) (left : List ℤ)
          → length left < length rows
          → Sweeps cutoff size t left (loop t left))
      → Sweeps cutoff size total rows
          (after_batch fate cancels cutoff (pos size) loop round total r)
  after_batch-Sweeps loop round total rows (n, left) h go =
      if_cases (Sweeps cutoff size total rows) (ltb_ℤ (pos n) (pos size)) _ _
        (λ e. (
          (λ f. cc),
          (λ f. omega (arith, h.0)),
          omega (arith, h.0),
          omega (arith, h.0),
          h.1,
          λ f. h.2 (ground (arith, e)),
        ))
        (λ e.
          if_cases (Sweeps cutoff size total rows) (cancels round) _ _
            (λ f. (
              (λ g. cc),
              (λ g. omega (arith, h.0)),
              omega (arith, h.0),
              omega (arith, h.0),
              h.1,
              (λ g. absurd cc),
            ))
            (λ f.
              let rest = go (total + n) left (ground (arith, e, h.3, full)) in
              (
                rest.0,
                (λ g. omega (arith, rest.1 g, h.0)),
                omega (arith, rest.2, h.0),
                omega (arith, rest.3, h.0),
                rest.4 ∙ h.1,
                rest.5,
              )))

  after_fate-Sweeps :
      (loop : ℕ → List ℤ → Swept) (round total : ℕ) (rows : List ℤ) (r : ℕ × List ℤ) (f : Fate)
      → Removes cutoff size rows r
      → ((t : ℕ) (left : List ℤ)
          → length left < length rows
          → Sweeps cutoff size t left (loop t left))
      → Sweeps cutoff size total rows
          (after_fate fate cancels cutoff (pos size) loop round total rows r f)
  after_fate-Sweeps loop round total rows r answers h go =
      after_batch-Sweeps loop round total rows r h go
  after_fate-Sweeps loop round total rows r fails h go =
      ((λ f. cc), (λ f. refl), omega arith, omega arith, refl, (λ f. absurd cc))
  after_fate-Sweeps loop round total rows r lost h go = (
    (λ f. cc),
    (λ f. absurd (f refl)),
    omega (arith, h.0),
    omega (arith, h.0, h.4),
    h.1,
    (λ f. absurd cc),
  )

  sweep_round-Sweeps :
      (loop : ℕ → List ℤ → Swept) (round total : ℕ) (rows : List ℤ)
      → ((t : ℕ) (left : List ℤ)
          → length left < length rows
          → Sweeps cutoff size t left (loop t left))
      → Sweeps cutoff size total rows
          (sweep_round fate cancels cutoff (pos size) loop round total rows)
  sweep_round-Sweeps loop round total rows go = rw (int32_small size small) (
      if_cases (Sweeps cutoff size total rows) (ltb_ℤ (pos size) (pos 0)) _ _
        (λ e. absurd (ground (arith, e)))
        (λ e.
          after_fate-Sweeps loop round total rows (delete_old cutoff size rows) (fate round)
            (delete_old-Removes cutoff size rows) go))

  sweep_from-Sweeps :
      (fuel round total : ℕ) (rows : List ℤ)
      → length rows < fuel
      → Sweeps cutoff size total rows
          (sweep_from fate cancels cutoff (pos size) fuel round total rows)
  unfolding sweep_from
  sweep_from-Sweeps zero round total rows h = absurd (omega arith)
  sweep_from-Sweeps (suc fuel) round total rows h =
      sweep_round-Sweeps (sweep_from fate cancels cutoff (pos size) fuel (suc round)) round total
        rows (λ t left k. sweep_from-Sweeps fuel (suc round) t left (omega (arith, h, k)))

  -- With a positive batch size below 2^31 a sweep ends, also where a statement or the context does, and
  -- keeps every row that is not older than the cutoff. It reports as many rows as it removed, of which a
  -- statement that fails after it was executed may have removed one batch more, and leaves no older row
  -- where it finishes.
  pub sweep_lem :
      (rows : List ℤ) → Sweeps cutoff size 0 rows (sweep fate cancels cutoff (pos size) rows)
  unfolding sweep
  sweep_lem rows = sweep_from-Sweeps (suc (length rows)) 0 0 rows (omega arith)
