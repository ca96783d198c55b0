-- ===== src/ResellerUsage.antt =====
-- internal/resellerusagejob/resellerusagejob.go: the traffic of resellers is queued, sent to the
-- reseller bot, and marked as sent, over the table of internal/db/queries/resellerapi.sql. What the
-- settings, the bot and the queries answer comes in. Amounts are integers of bytes.
pub mod Books
pub mod Conserve
pub mod Tests
use rapido_go.Prelude.{
  ℕ, ℤ, pos, ◌+ℤ◌, ◌-ℤ◌, ltb_ℤ, int_eq, String, Bool, true, false, not, ◌&&◌, ◌==◌, string_eq,
  Option, none, some, List, [], ◌∷◌, map, Assoc, lookup, insert, if◌then◌else◌,
}

-- A row of reseller_api_usage_queue.
pub record Row : Type 0 where
  pub pending : ℤ
  pub reported : ℤ

abbrev pub Queue : Type 0
Queue = Assoc ℤ Row

abbrev pub no_row : Row
no_row = record { pending = pos 0; reported = pos 0 }

abbrev pub row_or : Option Row → Row
row_or none = no_row
row_or (some r) = r

abbrev pub grown : ℤ → Row → Row
grown delta r = record r { pending = r.pending +ℤ delta }

-- The traffic of an admin queued, in a new row or in the one there is.
abbrev pub enqueue : ℤ → ℤ → Queue → Queue
enqueue id delta q = insert id (grown delta (row_or (lookup id q))) q

-- GetPendingResellerAPIUsage: what is pending of each admin.
abbrev pub pending_usage : Queue → Assoc ℤ ℤ
pending_usage [] = []
pending_usage ((id, r) ∷ q) =
    let rest = pending_usage q in if ltb_ℤ (pos 0) r.pending then (id, r.pending) ∷ rest else rest

abbrev pub marked : Option ℤ → Row → Row
marked none r = r
marked (some sent) r = record { pending = r.pending -ℤ sent; reported = r.reported +ℤ sent }

-- MarkResellerAPIUsageReported
abbrev pub mark_reported : Assoc ℤ ℤ → Queue → Queue
mark_reported sent [] = []
mark_reported sent ((id, r) ∷ q) = (id, marked (lookup id sent) r) ∷ mark_reported sent q

-- The queue, the report that is under way, and those that the bot accepted.
pub record State : Type 0 where
  pub queue : Queue
  pub out : Option (Assoc ℤ ℤ)
  pub accepted : List (Assoc ℤ ℤ)

abbrev pub new_state : State
new_state = record { queue = []; out = none; accepted = [] }

-- The result of a tick: nothing, or an error.
pub data Result : Type 0 where
  done : Result
  no_settings : Result
  not_loaded : Result
  not_sent : Result
  not_marked : Result

abbrev pub sent_or_done : State → Assoc ℤ ℤ → State × Option Result
sent_or_done s [] = (s, some done)
sent_or_done s (u ∷ us) = (record s { out = some (u ∷ us) }, none)

abbrev pub load : Bool → State → State × Option Result
load loads s = if loads then sent_or_done s (pending_usage s.queue) else (s, some not_loaded)

-- The part of `Tick` up to the report, which is then under way, or the result. The settings are
-- none for an error, or say whether they allow reports; `loads` says whether the queue is read.
unfoldable pub start_tick : Option Bool → Bool → State → State × Option Result
start_tick none loads s = (s, some no_settings)
start_tick (some can_report) loads s = if can_report then load loads s else (s, some done)

abbrev pub finish_sent : Bool → Bool → Assoc ℤ ℤ → State → State × Result
finish_sent accepts marks sent s =
    if not accepts
    then (record s { out = none }, not_sent)
    else if not marks
    then (record s { out = none; accepted = sent ∷ s.accepted }, not_marked)
    else (
      record { queue = mark_reported sent s.queue; out = none; accepted = sent ∷ s.accepted },
      done,
    )

-- The rest of `Tick`, with the answers of the bot and of the database.
abbrev pub finish_out : Bool → Bool → State → Option (Assoc ℤ ℤ) → State × Result
finish_out accepts marks s none = (s, done)
finish_out accepts marks s (some sent) = finish_sent accepts marks sent s

unfoldable pub finish_tick : Bool → Bool → State → State × Result
finish_tick accepts marks s = finish_out accepts marks s s.out
