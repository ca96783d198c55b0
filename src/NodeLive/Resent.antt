-- ===== src/NodeLive/Resent.antt =====
-- A request to internal/httpapi/nodelive.go that is sent again.
use rapido_go.Prelude.{
  ℕ, ◌+◌, ℤ, int_eq, String, Bool, true, false, not, ◌&&◌, ◌==◌, Option, none, some, List, [], ◌∷◌,
  ◌≡◌, refl, ap, ◌∙◌, arith, if_cases, Assoc, lookup-insert, ltb, if_true, if_false, beq_refl,
}
use rapido_go.Prelude.Bytes.{Bytes}
use rapido_go.Logstream.Ring.{Entry}
use rapido_go.NodeLive.Lines.{NodeLog, prepare_node_logs}
use rapido_go.NodeLive.Logs.{prepare_node_logs-again}
use rapido_go.NodeLive.{
  Request, Kept, Store, read_key, last_id, or_zero, commit, Fate, Answer, is_nil, members,
  valid_ports, total_of, to_store, handle_members, handle_node_live, handle_alone, node_log_ttl,
  if_kept,
}

-- Two stores with the same lines of all nodes.
abbrev pub SameLogs : Store → Store → Type 0
SameLogs s t = (s.logs ≡ t.logs) × (s.seqs ≡ t.seqs)

and_false : (b : Bool) → b && false ≡ false
and_false true = refl
and_false false = refl

commit-SameLogs :
    (now : ℕ) (node : ℤ) (users : List Bytes) (ports : Assoc Bytes ℤ) (total : ℤ) (es : List Entry)
    (s : Store)
    → es ≡ []
    → SameLogs (commit now node users ports total es s) s
unfolding commit
commit-SameLogs now node users ports total [] s e = (refl, refl)
commit-SameLogs now node users ports total (x ∷ es) s e = absurd (cc e)

-- The cursor behind a transaction.
cursor-commit :
    (now : ℕ) (node : ℤ) (users : List Bytes) (ports : Assoc Bytes ℤ) (total : ℤ) (es : List Entry)
    (s : Store)
    → or_zero (read_key now node (commit now node users ports total es s).seqs)
      ≡ last_id (or_zero (read_key now node s.seqs)) es
unfolding commit
cursor-commit now node users ports total [] s = refl
cursor-commit now node users ports total (e ∷ es) s =
    let cursor : Kept ℤ = record { held = last_id e.id es; until = now + node_log_ttl } in
    ap (λ o. or_zero (if_kept now o))
      (lookup-insert node node cursor s.seqs ∙ if_true (node == node) _ _ (beq_refl node))
    ∙ ap or_zero (if_true (ltb now (now + node_log_ttl)) _ _ (ground arith))

module _ {F : Type 0} (positive : F → Bool) (fold : String → String) (ts_from_id : ℤ → String) where
  to_store-again :
      (logs : List NodeLog) (stored again : Option ℤ)
      → or_zero again ≡ last_id (or_zero stored) (to_store positive fold ts_from_id logs stored)
      → to_store positive fold ts_from_id logs again ≡ []
  to_store-again [] stored again e = refl
  to_store-again (l ∷ logs) stored again e =
      ap (prepare_node_logs fold ts_from_id (l ∷ logs)) e
      ∙ prepare_node_logs-again fold ts_from_id (or_zero stored) (l ∷ logs)

  module _ (req : Request F) (node : ℤ) (fate later : Fate) (watched still : Bool) (now at : ℕ)
      (s : Store) where
    abbrev after : Option (List Bytes) → Store
    after users =
        (handle_members positive fold ts_from_id fate watched now node (read_key now node s.seqs)
          req s users).0

    handle_members-again :
        (t : Store) (users : Option (List Bytes))
        → to_store positive fold ts_from_id req.logs (read_key at node t.seqs) ≡ []
        → SameLogs
            (handle_members positive fold ts_from_id later still at node
              (read_key at node t.seqs)
              req
              t
              users).0
            t
    handle_members-again t none e = (refl, refl)
    handle_members-again t (some users) e =
        if_cases {A = Store × Answer} (λ r. SameLogs r.0 t)
          (not (is_nil req.logs) && not later.reads) _ _ (λ _. (refl, refl))
          (λ _.
            if_cases {A = Store × Answer} (λ r. SameLogs r.0 t) later.executes _ _
              (λ _.
                commit-SameLogs at node users (valid_ports req.port_conns)
                  (total_of req.conns_total (valid_ports req.port_conns)) _ t e)
              (λ _. (refl, refl)))

    users_again :
        (users : Option (List Bytes))
        → fate.reads ≡ true
        → fate.executes ≡ true
        → read_key at node (after users).seqs ≡ read_key now node (after users).seqs
        → SameLogs
            (handle_members positive fold ts_from_id later still at node
              (read_key at node (after users).seqs)
              req
              (after users)
              users).0
            (after users)
    users_again none reads executes kept = (refl, refl)
    users_again (some users) reads executes kept =
        let ports = valid_ports req.port_conns in
        let es = to_store positive fold ts_from_id req.logs (read_key now node s.seqs) in
        let committed = commit now node users ports (total_of req.conns_total ports) es s in
        let path : after (some users) ≡ committed =
          ap (λ (r : Store × Answer). r.0)
            (if_false (not (is_nil req.logs) && not fate.reads) _ _
                (rw reads (and_false (not (is_nil req.logs))))
              ∙ if_true fate.executes _ _ executes) in
        handle_members-again (after (some users)) (some users) (
          to_store-again req.logs (read_key now node s.seqs)
            (read_key at node (after (some users)).seqs)
            (ap or_zero kept
              ∙ ap (λ (t : Store). or_zero (read_key now node t.seqs)) path
              ∙ cursor-commit now node users ports (total_of req.conns_total ports) es s))

    -- A request whose transaction was executed, even where its answer was lost, and that is handled again
    -- changes no lines and no cursor, whatever Redis does then, if the cursor has not expired in between.
    pub handle_node_live-again :
        fate.reads ≡ true
        → fate.executes ≡ true
        → read_key at node
            (handle_alone positive fold ts_from_id fate watched now node req s).0.seqs
          ≡ read_key now node
              (handle_alone positive fold ts_from_id fate watched now node req s).0.seqs
        → SameLogs
            (handle_alone positive fold ts_from_id later still at node req
              (handle_alone positive fold ts_from_id fate watched now node req s).0).0
            (handle_alone positive fold ts_from_id fate watched now node req s).0
    unfolding handle_node_live
    handle_node_live-again = users_again (members positive req.online)
