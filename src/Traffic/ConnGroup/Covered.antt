-- ===== src/Traffic/ConnGroup/Covered.antt =====
-- No connection escapes: it is held, or closed by the group, or was released.
use rapido_go.Prelude.{
  ℕ, ◌+◌, ◌%◌, ◌^◌, ◌<◌, Bool, true, false, nat_eq, some, List, [], ◌∷◌, ◌++◌, Assoc, lookup,
  insert, lookup-insert, length, length-append, get_or, get_or-append_left, get_or-append_end, any,
  ◌≡◌, ◌⊎◌, inl, inr, refl, arith, Bool-cases, beq_refl, nat_beq,
}
use rapido_go.Traffic.ConnGroup.{Hold, refused, ConnGroup, hold, conns_of, close_all}

abbrev pub is_in : ℕ → List ℕ → Bool
is_in c xs = any (λ x. nat_beq x c) xs

is_in-append_left : (c : ℕ) (xs ys : List ℕ) → is_in c xs ≡ true → is_in c (xs ++ ys) ≡ true
is_in-append_left c [] ys h = absurd (ground arith)
is_in-append_left c (x ∷ xs) ys h = ground (arith, is_in-append_left c xs ys)

is_in-append_right : (c : ℕ) (xs ys : List ℕ) → is_in c ys ≡ true → is_in c (xs ++ ys) ≡ true
is_in-append_right c [] ys h = h
is_in-append_right c (x ∷ xs) ys h = ground (arith, is_in-append_right c xs ys h)

is_in-conns_of : (k c : ℕ) (m : Assoc ℕ ℕ) → lookup k m ≡ some c → is_in c (conns_of m) ≡ true
is_in-conns_of k c [] h = absurd (ground arith)
is_in-conns_of k c ((j, d) ∷ m) h = ground (arith, is_in-conns_of k c m)

-- The connection was released, or closed, or is held.
abbrev pub IsCovered : ConnGroup → Hold → Type 0
IsCovered g h =
    (h.released ≡ true)
    ⊎ (is_in h.conn g.ended ≡ true)
    ⊎ (h.kept ≡ true) × (lookup h.id g.conns ≡ some h.conn)

-- What call i of `Hold` has returned.
abbrev pub hold_at : ConnGroup → ℕ → Hold
hold_at g i = get_or g.holds i (refused 0)

pub record IsConsistent (g : ConnGroup) : Type 0 where
  pub ids : (i : ℕ) → i < length g.holds → (hold_at g i).kept ≡ true → (hold_at g i).id ≡ i + 1
  pub counted : g.closed ≡ false → g.next ≡ length g.holds
  pub emptied : g.closed ≡ true → g.conns ≡ []
  pub covered : (i : ℕ) → i < length g.holds → IsCovered g (hold_at g i)

pub close_all-IsConsistent : (g : ConnGroup) → IsConsistent g → IsConsistent (close_all g)
unfolding close_all
close_all-IsConsistent g x = record {
  ids = x.ids;
  counted = λ e. absurd (ground arith);
  emptied = λ e. refl;
  covered = λ i h. elim (x.covered i h) [
    | inl r ↦ inl r
    | inr (inl e) ↦ inr (inl (is_in-append_left _ g.ended (conns_of g.conns) e))
    | inr (inr k) ↦ inr (
        inl (
          is_in-append_right _ g.ended (conns_of g.conns)
            (is_in-conns_of (hold_at g i).id _ g.conns k.1)))
  ];
}

pub IsCovered-map :
    (g g' : ConnGroup) (h : Hold)
    → (is_in h.conn g.ended ≡ true → is_in h.conn g'.ended ≡ true)
    → (h.kept ≡ true → lookup h.id g.conns ≡ some h.conn → lookup h.id g'.conns ≡ some h.conn)
    → IsCovered g h
    → IsCovered g' h
IsCovered-map g g' h e k (inl r) = inl r
IsCovered-map g g' h e k (inr (inl c)) = inr (inl (e c))
IsCovered-map g g' h e k (inr (inr c)) = inr (inr (c.0, k c.0 c.1))

snoc_cases :
    (xs : List Hold) (y : Hold) (i : ℕ)
    → i < length (xs ++ (y ∷ []))
    → (i < length xs) ⊎ (i ≡ length xs)
snoc_cases xs y i h = grind (arith, length-append xs (y ∷ []))

module _ (g : ConnGroup) (c : ℕ) (x : IsConsistent g) where
  ids-snoc :
      (y : Hold)
      → (y.kept ≡ true → y.id ≡ length g.holds + 1)
      → (i : ℕ) → i < length (g.holds ++ (y ∷ []))
      → (get_or (g.holds ++ (y ∷ [])) i (refused 0)).kept ≡ true
      → (get_or (g.holds ++ (y ∷ [])) i (refused 0)).id ≡ i + 1
  ids-snoc y last i h k = elim (snoc_cases g.holds y i h) [
    | inl old ↦
        let same = get_or-append_left g.holds (y ∷ []) i (refused 0) old in
        rw same (x.ids i old (rw same at k))
    | inr new ↦
        let same = get_or-append_end g.holds y i (refused 0) new in
        rw same (omega (arith, last (rw same at k)))
  ]

  refuse-IsConsistent :
      g.closed ≡ true
      → IsConsistent (record g {
        closed = true;
        ended = g.ended ++ (c ∷ []);
        holds = g.holds ++ (refused c ∷ []);
      })
  refuse-IsConsistent e =
      let g' : ConnGroup = record g {
        closed = true;
        ended = g.ended ++ (c ∷ []);
        holds = g.holds ++ (refused c ∷ []);
      } in
      record {
        ids = ids-snoc (refused c) (λ k. absurd (ground arith));
        counted = λ f. absurd (ground arith);
        emptied = λ f. x.emptied e;
        covered = λ i h. elim (snoc_cases g.holds (refused c) i h) [
          | inl old ↦ rw (get_or-append_left g.holds (refused c ∷ []) i (refused 0) old) (
              IsCovered-map g g' (hold_at g i) (is_in-append_left _ g.ended (c ∷ [])) (λ k l. l)
                (x.covered i old))
          | inr new ↦
              rw (get_or-append_end g.holds (refused c) i (refused 0) new)
                (inr (inl (is_in-append_right c g.ended (c ∷ []) (ground arith))))
        ];
      }

  keep-IsConsistent :
      (id : ℕ)
      → id ≡ length g.holds + 1
      → g.closed ≡ false
      → let h : Hold = record { conn = c; id = id; kept = true; released = false } in
        IsConsistent (record g {
          closed = false;
          conns = insert id c g.conns;
          next = id;
          holds = g.holds ++ (h ∷ []);
        })
  keep-IsConsistent id new e =
      let n : Hold = record { conn = c; id = id; kept = true; released = false } in
      let g' : ConnGroup = record g {
        closed = false;
        conns = insert id c g.conns;
        next = id;
        holds = g.holds ++ (n ∷ []);
      } in
      record {
        ids = ids-snoc n (λ k. new);
        counted = λ f. omega (arith, length-append g.holds (n ∷ []));
        emptied = λ f. absurd (ground arith);
        covered = λ i h. elim (snoc_cases g.holds n i h) [
          | inl old ↦ rw (get_or-append_left g.holds (n ∷ []) i (refused 0) old) (
              IsCovered-map g g' (hold_at g i) (λ k. k)
                (λ k l.
                  let before = x.ids i old k in
                  rw (lookup-insert id (hold_at g i).id c g.conns) (ground (arith, l)))
                (x.covered i old))
          | inr at_end ↦
              rw (get_or-append_end g.holds n i (refused 0) at_end)
                (inr (inr (refl, rw (lookup-insert id id c g.conns) (rw (beq_refl id) refl))))
        ];
      }

pub hold-IsConsistent :
    (g : ConnGroup) (c : ℕ) → length g.holds + 1 < 2 ^ 64 → IsConsistent g → IsConsistent (hold g c)
unfolding hold
hold-IsConsistent g c small x = elim (Bool-cases g.closed) [
  | inl e ↦ rw e (refuse-IsConsistent g c x e)
  | inr e ↦ rw e (keep-IsConsistent g c x ((g.next + 1) % 2 ^ 64) (omega (arith, x.counted e)) e)
]
