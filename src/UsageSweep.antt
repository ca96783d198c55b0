-- ===== src/UsageSweep.antt =====
-- `Sweep` of internal/usagejob/usagejob.go over node_user_usages, of which only the instants of the
-- rows count. What comes of each statement, and in which pauses the context ends, comes in by the round.
pub mod Batches
pub mod Tests
use rapido_go.Prelude.{
  ℕ, zero, suc, ◌+◌, ℤ, pos, pos_part, ltb_ℤ, int32, Bool, true, false, List, [], ◌∷◌, length, ltb,
  if◌then◌else◌,
}

abbrev pub batch_size : ℕ
batch_size = 20000

-- DeleteOldNodeUserUsages: the number of the rows removed, at most a limit of those older than the
-- cutoff, and the rows left.
abbrev pub delete_old : ℤ → ℕ → List ℤ → ℕ × List ℤ
delete_old cutoff limit [] = (0, [])
delete_old cutoff zero (t ∷ ts) = (0, t ∷ ts)
delete_old cutoff (suc limit) (t ∷ ts) =
    let removed = delete_old cutoff limit ts in
    let kept = delete_old cutoff (suc limit) ts in
    if ltb_ℤ t cutoff then (suc removed.0, removed.1) else (kept.0, t ∷ kept.1)

-- What comes of a statement: it answers, fails, or is executed and its answer is lost.
pub data Fate : Type 0 where
  answers : Fate
  fails : Fate
  lost : Fate

pub data Ending : Type 0 where
  finished : Ending
  query_failed : Ending
  canceled : Ending
  no_fuel : Ending

-- How a sweep ends, the total removed, and the rows left.
pub record Swept : Type 0 where
  pub ending : Ending
  pub total : ℕ
  pub rows : List ℤ

module _ (fate : ℕ → Fate) (cancels : ℕ → Bool) (cutoff : ℤ) (batch : ℤ) where
  -- Behind a statement that returned the number of the rows removed.
  abbrev pub after_batch : (ℕ → List ℤ → Swept) → ℕ → ℕ → ℕ × List ℤ → Swept
  after_batch loop round total (n, rows) =
      if ltb_ℤ (pos n) batch
      then record { ending = finished; total = total + n; rows = rows }
      else if cancels round
      then record { ending = canceled; total = total + n; rows = rows }
      else loop (total + n) rows

  abbrev pub after_fate : (ℕ → List ℤ → Swept) → ℕ → ℕ → List ℤ → ℕ × List ℤ → Fate → Swept
  after_fate loop round total rows removed answers = after_batch loop round total removed
  after_fate loop round total rows removed fails = record {
    ending = query_failed;
    total = total;
    rows = rows;
  }
  after_fate loop round total rows removed lost = record {
    ending = query_failed;
    total = total;
    rows = removed.1;
  }

  -- One statement, whose LIMIT is the batch size as an int32; Postgres refuses a negative one.
  abbrev pub sweep_round : (ℕ → List ℤ → Swept) → ℕ → ℕ → List ℤ → Swept
  sweep_round loop round total rows =
      if ltb_ℤ (int32 batch) (pos 0)
      then record { ending = query_failed; total = total; rows = rows }
      else after_fate loop round total rows (delete_old cutoff (pos_part (int32 batch)) rows)
          (fate round)

  -- The loop, from a round and a total on.
  unfoldable pub sweep_from : ℕ → ℕ → ℕ → List ℤ → Swept
  sweep_from zero round total rows = record { ending = no_fuel; total = total; rows = rows }
  sweep_from (suc fuel) round total rows =
      sweep_round (sweep_from fuel (suc round)) round total rows

  -- `Sweep`
  unfoldable pub sweep : List ℤ → Swept
  unfolding sweep_from
  sweep rows = sweep_from (suc (length rows)) 0 0 rows
