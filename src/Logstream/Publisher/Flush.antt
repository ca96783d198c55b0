-- ===== src/Logstream/Publisher/Flush.antt =====
-- What a flush leaves in the Redis list: chunking and cutting early are invisible, no entry is
-- skipped, and a failed flush is made good by the next one.
use rapido_go.Prelude.{
  ℕ, zero, suc, ◌+◌, ◌-◌, ◌≤◌, ◌≡◌, refl, ap, sym, ◌∙◌, ℤ, pos, negsuc, List, [], ◌∷◌, ◌++◌,
  append-nil, append_assoc, length, length-drop, select, get_or, take, drop, keep_last, take_all,
  arith, ltb, false, Bool-cases, inl, inr,
}
use rapido_go.Prelude.Suffix.{keep_last-append_right, keep_last_short, get_or-drop_last}
use rapido_go.Logstream.Ring.{Entry, zero_entry, Ring, at, ring_size, entries_from}
use rapido_go.Logstream.Ring.Valid.{contents}
use rapido_go.Logstream.Ring.Order.{IsOrdered}
use rapido_go.Logstream.Ring.Read.{is_newer, after_lem, newer_entries}
use rapido_go.Prelude.Search.{search}
use rapido_go.Prelude.Circular.{select-window_none, get_or-window, length-window}
use rapido_go.Logstream.Publisher.{
  Publisher, Command, ltrim, execute, execute_all, executed, failed, push_chunk, push_chunks,
  pipeline, newest_batch, send, send_new, flush,
}

take-append-drop : (n : ℕ) (xs : List Entry) → take n xs ++ drop n xs ≡ xs
take-append-drop zero xs = refl
take-append-drop (suc n) [] = refl
take-append-drop (suc n) (x ∷ xs) = ap (λ r. x ∷ r) (take-append-drop n xs)

execute_all-append :
    (cs ds : List Command) (list : List Entry)
    → execute_all (cs ++ ds) list ≡ execute_all ds (execute_all cs list)
unfolding execute_all
execute_all-append [] ds list = refl
execute_all-append (c ∷ cs) ds list = execute_all-append cs ds (execute c list)

execute_all-push_chunks :
    (fuel : ℕ) (entries list : List Entry)
    → length entries ≤ fuel
    → execute_all (push_chunks fuel entries) list ≡ list ++ entries
unfolding execute_all push_chunks
execute_all-push_chunks zero [] list h = sym (append-nil list)
execute_all-push_chunks zero (e ∷ es) list h = elim h [ ]
execute_all-push_chunks (suc fuel) [] list h = sym (append-nil list)
execute_all-push_chunks (suc fuel) (e ∷ es) list h =
    execute_all-push_chunks fuel (drop push_chunk (e ∷ es)) (list ++ take push_chunk (e ∷ es))
      (omega (arith, length-drop push_chunk (e ∷ es)))
    ∙ append_assoc list (take push_chunk (e ∷ es)) (drop push_chunk (e ∷ es))
    ∙ ap (λ r. list ++ r) (take-append-drop push_chunk (e ∷ es))

execute-trim :
    (list : List Entry)
    → execute (ltrim (negsuc (ring_size - 1)) (negsuc 0)) list ≡ keep_last ring_size list
execute-trim list =
    let a = length list - ring_size in
    take_all (length list - 1 + 1 - a) (drop a list) (omega (arith, length-drop a list))

-- An executed pipeline appends the entries and keeps the newest RingSize elements.
pub execute_all-pipeline :
    (entries list : List Entry)
    → execute_all (pipeline entries) list ≡ keep_last ring_size (list ++ entries)
unfolding pipeline
execute_all-pipeline entries list =
    execute_all-append (push_chunks (length entries) entries)
      (ltrim (negsuc (ring_size - 1)) (negsuc 0) ∷ []) list
    ∙ unfold execute_all in
      rw (execute_all-push_chunks (length entries) entries list (omega arith))
        (execute-trim (list ++ entries))

newest_batch_lem : (entries : List Entry) → newest_batch entries ≡ keep_last ring_size entries
unfolding newest_batch
newest_batch_lem entries = elim (Bool-cases (ltb ring_size (length entries))) [
  | inl h ↦ rw h
  | inr h ↦ rw h (sym (keep_last_short ring_size entries (ground arith)))
]

-- The list after an executed flush of the new entries.
send_new-executed :
    (p : Publisher) (entries list : List Entry)
    → (entries ≡ [] → length list ≤ ring_size)
    → (send_new p entries executed list).list ≡ keep_last ring_size (list ++ entries)
unfolding send_new
send_new-executed p [] list h = rw append-nil (sym (keep_last_short ring_size list (h refl)))
send_new-executed p (e ∷ es) list h =
    unfold send in
    rw (newest_batch_lem (e ∷ es)) (
      execute_all-pipeline (keep_last ring_size (e ∷ es)) list
      ∙ keep_last-append_right ring_size list (e ∷ es))

send_new-err :
    (p : Publisher) (entries list : List Entry) → (send_new p entries executed list).err ≡ false
unfolding send_new send
send_new-err p [] list = refl
send_new-err p (e ∷ es) list = refl

-- A flush that fails keeps the cursor: the entries are offered again.
pub flush_failed :
    (p : Publisher) (r : Ring) (k : ℕ) (list : List Entry)
    → (flush p r (failed k) list).publisher ≡ p
unfolding flush send_new send
flush_failed p r k list = ground arith

module _ (r : Ring) (o : IsOrdered r) where
  -- The id of the newest entry held.
  abbrev newest : ℤ
  newest = (at r (r.n - 1)).id

  none_newer : select (is_newer newest) (contents r) ≡ []
  none_newer =
      select-window_none zero_entry r.buf r.start (is_newer newest) 0 r.n
        (λ x h k. ground (arith, o.sorted x (r.n - 1)))

  -- The last of the new entries is the newest entry held.
  cursor_after :
      (bound : ℤ) (e : Entry) (es : List Entry)
      → select (is_newer bound) (contents r) ≡ e ∷ es
      → (get_or
          (keep_last ring_size (e ∷ es))
          (length (keep_last ring_size (e ∷ es)) - 1)
          zero_entry).id
        ≡ newest
  cursor_after bound e es h =
      let first = search r.n (λ i. is_newer bound (at r i)) in
      let k = r.n - first in
      let is_window : entries_from r first k ≡ e ∷ es = sym (newer_entries r o bound) ∙ h in
      let size : k ≡ suc (length es) =
        sym (length-window zero_entry r.buf r.start first k) ∙ ap length is_window in
      ap (λ (x : Entry). x.id) {y = at r (r.n - 1)}
        (get_or-drop_last (length (e ∷ es) - ring_size) (e ∷ es) zero_entry (omega arith)
          ∙ ap (λ xs. get_or xs (length xs - 1) zero_entry) (sym is_window)
          ∙ rw length-window (
              get_or-window zero_entry r.buf r.start first (k - 1) k (r.n - 1) (omega arith)
                (omega arith)))

  -- After an executed send of the new entries, none is newer than the cursor.
  send_new-none_newer :
      (p : Publisher) (entries list : List Entry)
      → select (is_newer p.last) (contents r) ≡ entries
      → select (is_newer (send_new p entries executed list).publisher.last) (contents r) ≡ []
  unfolding send_new
  send_new-none_newer p [] list h = h
  send_new-none_newer p (e ∷ es) list h =
      unfold send in rw (newest_batch_lem (e ∷ es)) (rw (cursor_after p.last e es h) none_newer)

  failed-list :
      (p : Publisher) (k : ℕ) (list : List Entry)
      → select (is_newer p.last) (contents r) ≡ []
      → (flush p r (failed k) list).list ≡ list
  unfolding flush send_new
  failed-list p k list h = rw (after_lem r o p.last (pos 0)) (rw h)

  -- An executed flush leaves the newest RingSize of what the list held and of the ring's entries
  -- above the cursor, returns no error, and leaves no entry of the ring above the new cursor.
  pub flush_executed :
      (p : Publisher) (list : List Entry)
      → (select (is_newer p.last) (contents r) ≡ [] → length list ≤ ring_size)
      → let f = flush p r executed list in
        (f.list ≡ keep_last ring_size (list ++ select (is_newer p.last) (contents r)))
        × (f.err ≡ false)
        × (select (is_newer f.publisher.last) (contents r) ≡ [])
  unfolding flush
  flush_executed p list h = rw (after_lem r o p.last (pos 0)) (
    send_new-executed p (select (is_newer p.last) (contents r)) list h,
    send_new-err p (select (is_newer p.last) (contents r)) list,
    send_new-none_newer p (select (is_newer p.last) (contents r)) list refl,
  )

  -- A flush that fails after any number of commands and is repeated leaves the newest RingSize of
  -- what the failed one left and of the entries that were to be published.
  pub flush_retry :
      (p : Publisher) (k : ℕ) (list : List Entry)
      → length list ≤ ring_size
      → let f = flush p r (failed k) list in
        (flush f.publisher r executed f.list).list
        ≡ keep_last ring_size (f.list ++ select (is_newer p.last) (contents r))
  flush_retry p k list h =
      let f = flush p r (failed k) list in
      rw (flush_failed p r k list) (flush_executed p f.list (λ e. rw (failed-list p k list e) h)).0
