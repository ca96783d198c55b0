-- ===== src/Logstream/Ring/Read.antt =====
-- Reading the log ring: the binary search of `After` and the count of `Tail` give the entries
-- that a filter and a suffix of the held list give.
use rapido_go.Prelude.{
  ℕ, ◌-◌, ◌≤◌, ◌<◌, ◌≡◌, ℤ, pos, pos_part, ltb_ℤ, arith, if◌then◌else◌, Bool, true, List, take,
  select, keep_last,
}
use rapido_go.Prelude.Circular.{take-window, drop-window, select-window_from}
use rapido_go.Prelude.Search.{search, search-IsFirst, IsFirst}
use rapido_go.Logstream.Ring.{Entry, zero_entry, Ring, at, after, tail, entries_from}
use rapido_go.Logstream.Ring.Valid.{contents, length-contents}
use rapido_go.Logstream.Ring.Order.{IsOrdered}

-- At most `limit` elements, all of them where the limit is not positive.
abbrev pub limited : ℤ → List Entry → List Entry
limited limit xs = if ltb_ℤ (pos 0) limit then take (pos_part limit) xs else xs

-- Entries that are newer than an id.
abbrev pub is_newer : ℤ → Entry → Bool
is_newer bound e = ltb_ℤ bound e.id

module _ (r : Ring) (o : IsOrdered r) (bound : ℤ) where
  newer_mono :
      (x y : ℕ) → x ≤ y → y < r.n → is_newer bound (at r x) ≡ true → is_newer bound (at r y) ≡ true
  newer_mono x y h k e = ground (arith, o.sorted x y)

  IsFirst-newer :
      IsFirst r.n (λ i. is_newer bound (at r i)) (search r.n (λ i. is_newer bound (at r i)))
  IsFirst-newer = search-IsFirst r.n (λ i. is_newer bound (at r i)) newer_mono

  pub newer_entries :
      let first = search r.n (λ i. is_newer bound (at r i)) in
      select (is_newer bound) (contents r) ≡ entries_from r first (r.n - first)
  newer_entries =
      let f = IsFirst-newer in
      select-window_from zero_entry r.buf r.start (is_newer bound) r.n
        (search r.n (λ i. is_newer bound (at r i))) f.within f.before f.from

  -- On a ring sorted by id, `After` returns the entries newer than the bound, oldest first, at most
  -- the limit of them where the limit is positive.
  pub after_lem :
      (limit : ℤ) → after r bound limit ≡ limited limit (select (is_newer bound) (contents r))
  unfolding after
  after_lem limit =
      let first = search r.n (λ i. is_newer bound (at r i)) in
      rw newer_entries
        (ground (arith, take-window zero_entry r.buf r.start (pos_part limit) first (r.n - first)))

-- `Tail` returns the newest entries held, all of them where the count is not positive.
pub tail_lem :
    (r : Ring) (m : ℤ)
    → tail r m ≡ (if ltb_ℤ (pos 0) m then keep_last (pos_part m) (contents r) else contents r)
unfolding tail
tail_lem r m =
    let skip = r.n - pos_part m in
    ground (
      arith,
      length-contents r,
      drop-window zero_entry r.buf r.start skip 0 r.n skip (omega arith) (omega arith),
    )
