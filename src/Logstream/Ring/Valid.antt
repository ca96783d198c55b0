-- ===== src/Logstream/Ring/Valid.antt =====
-- The representation invariant of the log ring, and the list of entries that a ring holds.
use rapido_go.Prelude.{
  ◌+◌, ◌%◌, ◌≤◌, ◌<◌, ◌≡◌, refl, ℤ, pos_part, List, ◌∷◌, [], ◌++◌, length, length-replicate,
  length-set, keep_last, arith, ltb, Bool-cases, inl, inr,
}
use native.Mathlib.Nat.{mod-lt}
use rapido_go.Prelude.Circular.{length-window, window-push_room_kept, window-push_full_kept}
use rapido_go.Logstream.Ring.{ring_size, Entry, zero_entry, Ring, new_ring, store, entries_from}

pub record IsValid (r : Ring) : Type 0 where
  pub room : 0 < length r.buf
  pub start_in : r.start < length r.buf
  pub n_in : r.n ≤ length r.buf

-- The entries that a ring holds, oldest first.
abbrev pub contents : Ring → List Entry
contents r = entries_from r 0 r.n

pub length-contents : (r : Ring) → length (contents r) ≡ r.n
length-contents r = length-window zero_entry r.buf r.start 0 r.n

pub new_ring-IsValid : (c : ℤ) → IsValid (new_ring c) × (contents (new_ring c) ≡ [])
unfolding new_ring
new_ring-IsValid c = (
  ground (arith, length-replicate ring_size zero_entry, length-replicate (pos_part c) zero_entry),
  refl,
)

pub store-IsValid : (r : Ring) (e : Entry) → IsValid r → IsValid (store r e)
unfolding store
store-IsValid r e v = ground (
  arith,
  length-set r.buf ((r.start + r.n) % length r.buf) e,
  length-set r.buf r.start e,
  mod-lt (r.start + 1) v.room,
)

pub length-buf-store : (r : Ring) (e : Entry) → length (store r e).buf ≡ length r.buf
unfolding store
length-buf-store r e =
    ground (arith, length-set r.buf ((r.start + r.n) % length r.buf) e, length-set r.buf r.start e)

-- A stored entry stands behind those held before, of which the oldest goes when there is no room.
pub contents-store :
    (r : Ring) (e : Entry)
    → IsValid r
    → contents (store r e) ≡ keep_last (length r.buf) (contents r ++ (e ∷ []))
unfolding store
contents-store r e v = elim (Bool-cases (ltb r.n (length r.buf))) [
  | inl h ↦ rw h (window-push_room_kept zero_entry r.buf r.start e v.start_in r.n (ground arith))
  | inr h ↦
      let full : r.n ≡ length r.buf = ground (arith, v.n_in) in
      rw h (rw full (window-push_full_kept zero_entry r.buf r.start e v.start_in))
]
