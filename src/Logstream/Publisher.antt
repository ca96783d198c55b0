-- ===== src/Logstream/Publisher.antt =====
-- internal/logstream/publisher.go: the publisher mirrors new ring entries into a Redis list of one
-- source. Redis is an environment: `list` is what LRANGE would show, an element stands for the
-- entry that `Encode` writes, and whether a pipeline was executed is its choice.
pub mod Flush
pub mod Reports
use rapido_go.Prelude.{
  ℕ, zero, suc, ◌+◌, ◌-◌, ℤ, pos, negsuc, String, Bool, true, false, not, ◌&&◌, Option, none, some,
  List, [], ◌∷◌, ◌++◌, length, get_or, take, drop, ltb, if◌then◌else◌,
}
use rapido_go.Logstream.Ring.{Entry, zero_entry, Ring, ring_size, after}

abbrev pub push_chunk : ℕ
push_chunk = 500

pub record Publisher : Type 0 where
  pub last : ℤ
  pub failing : Bool

-- The commands that the pipeline holds, all on the key of the source.
pub data Command : Type 0 where
  rpush : List Entry → Command
  ltrim : ℤ → ℤ → Command

-- A Redis list index counts from the end where it is negative.
abbrev pub list_index : ℕ → ℤ → ℕ
list_index len (pos i) = i
list_index len (negsuc i) = len - suc i

-- What Redis documents of RPUSH and LTRIM.
abbrev pub execute : Command → List Entry → List Entry
execute (rpush vals) list = list ++ vals
execute (ltrim start stop) list =
    let a = list_index (length list) start in
    take (list_index (length list) stop + 1 - a) (drop a list)

unfoldable pub execute_all : List Command → List Entry → List Entry
execute_all [] list = list
execute_all (c ∷ cs) list = execute_all cs (execute c list)

-- How `pipe.Exec` ends: executed, or an error with the first `k` commands executed all the same.
pub data Outcome : Type 0 where
  executed : Outcome
  failed : ℕ → Outcome

-- for start := 0; start < len(entries); start += pushChunk { pipe.RPush(...) }
unfoldable pub push_chunks : ℕ → List Entry → List Command
push_chunks zero entries = []
push_chunks (suc fuel) [] = []
push_chunks (suc fuel) (e ∷ entries) =
    rpush (take push_chunk (e ∷ entries)) ∷ push_chunks fuel (drop push_chunk (e ∷ entries))

-- Each round pushes at least one entry, so as many rounds as entries are enough.
unfoldable pub pipeline : List Entry → List Command
pipeline entries =
    push_chunks (length entries) entries ++ (ltrim (negsuc (ring_size - 1)) (negsuc 0) ∷ [])

-- entries[len(entries)-RingSize:] where there are more than RingSize
unfoldable pub newest_batch : List Entry → List Entry
newest_batch entries =
    if ltb ring_size (length entries) then drop (length entries - ring_size) entries else entries

-- What one flush leaves: the publisher, the Redis list, and whether it returned an error.
pub record Flushed : Type 0 where
  pub publisher : Publisher
  pub list : List Entry
  pub err : Bool

unfoldable pub send : Publisher → List Entry → Outcome → List Entry → Flushed
send p entries executed list = record {
  publisher = record p { last = (get_or entries (length entries - 1) zero_entry).id };
  list = execute_all (pipeline entries) list;
  err = false;
}
send p entries (failed k) list = record {
  publisher = p;
  list = execute_all (take k (pipeline entries)) list;
  err = true;
}

unfoldable pub send_new : Publisher → List Entry → Outcome → List Entry → Flushed
send_new p [] o list = record { publisher = p; list = list; err = false }
send_new p (e ∷ es) o list = send p (newest_batch (e ∷ es)) o list

-- `Flush`
unfoldable pub flush : Publisher → Ring → Outcome → List Entry → Flushed
flush p r o list = send_new p (after r p.last (pos 0)) o list

pub data Message : Type 0 where
  outage : Message
  recovery : Message

-- `report`: the message logged, if any.
unfoldable pub report : Publisher → Bool → Publisher × Option Message
report p err =
    if err && not p.failing
    then (record p { failing = true }, some outage)
    else if not err && p.failing
    then (record p { failing = false }, some recovery)
    else (p, none)
