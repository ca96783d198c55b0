-- ===== src/NodeLive/Tests.antt =====
-- Two reports of a node.
use rapido_go.Prelude.{
  ℕ, ◌/◌, ℤ, pos, int_eq, String, Bool, true, false, none, some, [], ◌∷◌, map, arith, ◌≡◌, refl,
  ltb, ◌&&◌, if◌then◌else◌,
}
use rapido_go.Prelude.Bytes.{bytes}
use rapido_go.Logstream.Ring.{Entry}
use rapido_go.Logstream.Publisher.{execute_all, pipeline, push_chunks}
use rapido_go.NodeLive.Lines.{NodeLog}
use rapido_go.NodeLive.{
  name, number, other, or_empty_list, Request, Fate, read_key, handle_node_live, handle_alone,
  members,
}
use rapido_go.NodeLive.Stored.{Event, empty_store, run, IsConsistent, Unraced, run-IsConsistent}
use rapido_go.NodeLive.Resent.{SameLogs, handle_node_live-again}
use rapido_go.NodeLive.Online.{milli, is_live, is_within, online_window, user_status, load_presence}
use rapido_go.NodeLive.History.{reported_until, all_count, last_listed}
use rapido_go.NodeLive.Flags.{is_online, run-user_status}

abbrev above_zero : ℕ → Bool
above_zero n = ltb 0 n

abbrev same_text : String → String
same_text s = s

abbrev no_time : ℤ → String
no_time id = "time"

abbrev works : Fate
works = record { reads = true; executes = true; answers = true }

abbrev unheard : Fate
unheard = record { reads = true; executes = true; answers = false }

abbrev line : ℕ → NodeLog
line n = record { id = pos n; ts = "t"; level = "info"; line = "up" }

abbrev report : Request ℕ
report = record {
  conns_total = pos 3;
  port_conns = [];
  online = (name (bytes "alice") ∷ number 2 ∷ []) ∷ (name (bytes "bob") ∷ number 0 ∷ []) ∷ [];
  logs = line 12 ∷ line 10 ∷ line 12 ∷ [];
}

abbrev first : Event ℕ
first = record {
  fate = unheard;
  watched = false;
  now = 1000;
  node = pos 4;
  cursor = none;
  req = report;
}

abbrev second_time : Event ℕ
second_time = record {
  fate = works;
  watched = false;
  now = 3000;
  node = pos 4;
  cursor = some (pos 12);
  req = report;
}

refused_row : members above_zero ((name (bytes "alice") ∷ other ∷ []) ∷ []) ≡ none
unfolding members
refused_row = refl

listed_rows : members above_zero report.online ≡ some (bytes "alice" ∷ [])
unfolding members
listed_rows = refl

unraced : Unraced above_zero same_text no_time (first ∷ second_time ∷ []) empty_store
unfolding handle_node_live
unraced = ((1000, omega arith, refl), ((2000, omega arith, refl), tt))

run-IsConsistent_example :
    IsConsistent (run above_zero same_text no_time (first ∷ second_time ∷ []) empty_store)
run-IsConsistent_example =
    run-IsConsistent above_zero same_text no_time (first ∷ second_time ∷ []) unraced

-- The request again, while the first one waits for its transaction: its lines are stored twice.
raced :
    map
      (λ (e : Entry). e.id)
      (or_empty_list (
        read_key 3000
          (pos 4)
          (run above_zero same_text no_time
            (first ∷ record second_time { cursor = none } ∷ [])
            empty_store).logs))
    ≡ pos 10 ∷ pos 12 ∷ pos 10 ∷ pos 12 ∷ []
unfolding run handle_node_live execute_all pipeline push_chunks
raced = refl

kept :
    read_key 3000
      (pos 4)
      (handle_alone above_zero same_text no_time unheard false 1000
        (pos 4)
        report
        empty_store).0.seqs
    ≡ read_key 1000
        (pos 4)
        (handle_alone above_zero same_text no_time unheard false 1000
          (pos 4)
          report
          empty_store).0.seqs
unfolding handle_node_live
kept = refl

handle_node_live-again_example :
    SameLogs
      (handle_alone above_zero same_text no_time works false 3000
        (pos 4)
        report
        (handle_alone above_zero same_text no_time unheard false 1000
          (pos 4)
          report
          empty_store).0).0
      (handle_alone above_zero same_text no_time unheard false 1000 (pos 4) report empty_store).0
handle_node_live-again_example =
    handle_node_live-again above_zero same_text no_time report (pos 4) unheard works false false
      1000 3000 empty_store refl refl kept

run-user_status_example :
    (user_status
      (load_presence true
        (9000000000 / milli)
        (pos 4 ∷ [])
        (bytes "alice" ∷ [])
        (run above_zero same_text no_time (first ∷ []) empty_store))
      (bytes "alice")
      none
      9000000000).0
    ≡ (if is_live (9000000000 / milli) (reported_until above_zero (first ∷ []) none)
          && all_count above_zero same_text no_time (9000000000 / milli) (pos 4 ∷ []) (first ∷ [])
        then is_online 9000000000 (last_listed above_zero (bytes "alice") (first ∷ []) none)
        else is_within online_window 9000000000 none)
run-user_status_example =
    run-user_status above_zero same_text no_time (first ∷ []) (pos 4 ∷ []) (bytes "alice")
      (bytes "alice" ∷ []) 9000000000 none refl
