-- ===== src/Logstream/Publisher/Reports.antt =====
-- The messages about an outage of Redis, over any sequence of publishing results.
use rapido_go.Prelude.{Bool, true, false, Option, none, some, List, [], ◌∷◌, ℤ}
use rapido_go.Logstream.Publisher.{Publisher, Message, outage, recovery, report}

pub logged : Option Message → List Message → List Message
logged none ms = ms
logged (some m) ms = m ∷ ms

-- The messages logged while the results of `Flush` come in; `true` is an error.
pub reports : Publisher → List Bool → List Message
reports p [] = []
reports p (err ∷ errs) = let (p', m) = report p err in logged m (reports p' errs)

-- Outages and recoveries take turns; `down` says whether an outage has been logged last.
abbrev pub TakeTurns : Bool → List Message → Type 0
TakeTurns down [] = Unit
TakeTurns false (outage ∷ ms) = TakeTurns true ms
TakeTurns true (recovery ∷ ms) = TakeTurns false ms
TakeTurns false (recovery ∷ ms) = ⊥
TakeTurns true (outage ∷ ms) = ⊥

reports_from :
    (last : ℤ) (down : Bool) (errs : List Bool)
    → TakeTurns down (reports (record { last = last; failing = down }) errs)
unfolding reports report logged
reports_from last down [] = tt
reports_from last false (true ∷ errs) = reports_from last true errs
reports_from last false (false ∷ errs) = reports_from last false errs
reports_from last true (true ∷ errs) = reports_from last true errs
reports_from last true (false ∷ errs) = reports_from last false errs

-- Whatever the results, outages and recoveries are logged in turns, beginning with an outage where
-- none was going on.
pub reports-TakeTurns : (p : Publisher) (errs : List Bool) → TakeTurns p.failing (reports p errs)
reports-TakeTurns p errs = reports_from p.last p.failing errs
