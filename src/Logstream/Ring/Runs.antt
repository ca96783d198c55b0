-- ===== src/Logstream/Ring/Runs.antt =====
-- Any number of calls of `Add` on one ring.
use Prim.Native.String.{len, String}
use text.Mathlib.TextPositions.{len-append}
use rapido_go.Prelude.Texts.{len-slice}
use rapido_go.Prelude.{
  ℕ, true, ltb, ◌+◌, ◌-◌, ◌^◌, ◌≤◌, ◌<◌, ◌≡◌, ap, sym, ◌∙◌, ℤ, pos, ◌≤ℤ◌, ◌<ℤ◌, length, List, [],
  ◌∷◌, ◌++◌, keep_last, arith, All, append_assoc, append-nil, ltb_ℤ, pos_part, int64_exact,
  +ℤ_parts, ◌+ℤ◌, int_laws, Bool-cases, inl, inr, length-replicate,
}
use rapido_go.Prelude.Suffix.{keep_last-append, keep_last_short}
use rapido_go.Logstream.Ring.{
  Entry, zero_entry, Ring, Instant, new_ring, max_line_bytes, clip, store, add, make_entry, next_id,
  tail,
}
use rapido_go.Logstream.Ring.Valid.{
  IsValid, contents, contents-store, length-contents, store-IsValid, new_ring-IsValid,
  length-buf-store,
}
use rapido_go.Logstream.Ring.Order.{IsOrdered, store-IsOrdered, last_id-store}
use rapido_go.Logstream.Ring.Read.{tail_lem}

clip_bound : (line : String) → len (clip line) ≤ max_line_bytes + 3
unfolding clip
clip_bound line = elim (Bool-cases (ltb max_line_bytes (len line))) [
  | inl h ↦ rw h (rw len-append (omega (arith, len-slice line max_line_bytes)))
  | inr h ↦ rw h (ground arith)
]

-- `Add` keeps a valid ring valid, puts the entry that it returns behind the entries held, of which
-- the oldest goes when the ring is full, and records the entry's id as the last one. The stored
-- line has at most MaxLineBytes and three bytes.
pub add_refines :
    (r : Ring) (now t : Instant) (level line : String)
    → IsValid r
    → let (r', e) = add r now t level line in
      IsValid r'
      × (contents r' ≡ keep_last (length r.buf) (contents r ++ (e ∷ [])))
      × (r'.last_id ≡ e.id)
      × (len e.line ≤ max_line_bytes + 3)
unfolding add
add_refines r now t level line v =
    let e = make_entry r.last_id now t level line in
    (
      store-IsValid r e v,
      contents-store r e v,
      last_id-store r e v,
      unfold make_entry in clip_bound line,
    )

-- One call of `Add`, with the clock's reading.
pub record Call : Type 0 where
  pub now : Instant
  pub t : Instant
  pub level : String
  pub line : String

-- The calls in order, and the entries that they returned.
pub add_all : Ring → List Call → Ring × List Entry
add_all r [] = (r, [])
add_all r (c ∷ calls) =
    let (r', e) = add r c.now c.t c.level c.line in
    let (r'', es) = add_all r' calls in (r'', e ∷ es)

pub add_all-IsValid : (calls : List Call) (r : Ring) → IsValid r → IsValid (add_all r calls).0
unfolding add_all add
add_all-IsValid [] r v = v
add_all-IsValid (c ∷ calls) r v =
    add_all-IsValid calls (add r c.now c.t c.level c.line).0
      (store-IsValid r (make_entry r.last_id c.now c.t c.level c.line) v)

-- A valid ring holds the newest of what it held and of the entries returned since.
pub contents-add_all :
    (calls : List Call) (r : Ring)
    → IsValid r
    → contents (add_all r calls).0 ≡ keep_last (length r.buf) (contents r ++ (add_all r calls).1)
unfolding add_all add
contents-add_all [] r v =
    rw append-nil (sym (keep_last_short (length r.buf) (contents r) (rw length-contents v.n_in)))
contents-add_all (c ∷ calls) r v =
    let e = make_entry r.last_id c.now c.t c.level c.line in
    contents-add_all calls (store r e) (store-IsValid r e v)
    ∙ rw (length-buf-store, contents-store r e v)
        (keep_last-append (length r.buf) (contents r ++ (e ∷ [])) (add_all (store r e) calls).1
          ∙ ap (keep_last (length r.buf))
              (append_assoc (contents r) (e ∷ []) (add_all (store r e) calls).1))

length-buf-new_ring : (c : ℤ) → pos 0 <ℤ c → length (new_ring c).buf ≡ pos_part c
unfolding new_ring
length-buf-new_ring c h = ground (arith, length-replicate (pos_part c) zero_entry)

pos_test : (m : ℤ) → pos 0 <ℤ m → ltb_ℤ (pos 0) m ≡ true
pos_test m h = ground arith

-- What `Add` stored in a new ring, read back by `Tail`: the newest of the returned entries, as many
-- as were asked for and as the ring holds.
pub tail-add_all :
    (c : ℤ) (calls : List Call) (m : ℤ)
    → pos 0 <ℤ c
    → pos 0 <ℤ m
    → let (r, es) = add_all (new_ring c) calls in
      tail r m ≡ keep_last (pos_part m) (keep_last (pos_part c) es)
tail-add_all c calls m h k =
    let r = (add_all (new_ring c) calls).0 in
    let fresh = new_ring-IsValid c in
    let held : contents r ≡ keep_last (pos_part c) (add_all (new_ring c) calls).1 =
      contents-add_all calls (new_ring c) fresh.0 ∙ rw (fresh.1, length-buf-new_ring c h) in
    tail_lem r m ∙ rw (pos_test m k) (rw held)

-- No clock reading of the calls is above the bound.
abbrev pub ReadAtMost : ℕ → List Call → Type 0
ReadAtMost b = All (λ c. (c.now.unix_micro ≤ℤ pos b) × (c.t.unix_micro ≤ℤ pos b))

ReadAtMost-suc : (b : ℕ) (calls : List Call) → ReadAtMost b calls → ReadAtMost (b + 1) calls
ReadAtMost-suc b [] h = tt
ReadAtMost-suc b (c ∷ calls) h = ((omega arith, omega arith), ReadAtMost-suc b calls h.1)

next_id_bounds :
    (id last : ℤ) (b : ℕ)
    → b < 2 ^ 63 - 1
    → id ≤ℤ pos b
    → pos 0 ≤ℤ last
    → last ≤ℤ pos b
    → (last <ℤ next_id id last) × (next_id id last ≤ℤ pos (b + 1))
unfolding next_id
next_id_bounds id last b room h lo hi =
    ground
      (arith, int64_exact (last +ℤ pos 1) (omega int_laws) (omega int_laws), +ℤ_parts last (pos 1))

module _ (b : ℕ) (c : Call) (calls : List Call) (last : ℤ) (room : b < 2 ^ 63 - 1)
    (reads : ReadAtMost b (c ∷ calls)) (lo : pos 0 ≤ℤ last) (hi : last ≤ℤ pos b) where
  entry_id_bounds :
      let e = make_entry last c.now c.t c.level c.line in (last <ℤ e.id) × (e.id ≤ℤ pos (b + 1))
  unfolding make_entry
  entry_id_bounds = elim (Bool-cases c.t.is_zero) [
    | inl z ↦ rw z (next_id_bounds c.now.unix_micro last b room reads.0.0 lo hi)
    | inr z ↦ rw z (next_id_bounds c.t.unix_micro last b room reads.0.1 lo hi)
  ]

-- While the clock and the number of calls leave room below the largest int64, the ring stays
-- ordered.
pub add_all-IsOrdered :
    (b : ℕ) (calls : List Call) (r : Ring)
    → b + length calls < 2 ^ 63
    → ReadAtMost b calls
    → IsValid r
    → IsOrdered r
    → pos 0 ≤ℤ r.last_id
    → r.last_id ≤ℤ pos b
    → IsOrdered (add_all r calls).0
unfolding add_all add
add_all-IsOrdered b [] r room reads v o lo hi = o
add_all-IsOrdered b (c ∷ calls) r room reads v o lo hi =
    let e = make_entry r.last_id c.now c.t c.level c.line in
    let bounds = entry_id_bounds b c calls r.last_id (omega arith) reads lo hi in
    add_all-IsOrdered (b + 1) calls (store r e) (omega arith) (ReadAtMost-suc b calls reads.1)
      (store-IsValid r e v) (store-IsOrdered r e v bounds.0 o)
      (rw last_id-store (omega (arith, bounds))) (rw last_id-store bounds.1)
