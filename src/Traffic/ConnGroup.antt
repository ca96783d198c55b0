-- ===== src/Traffic/ConnGroup.antt =====
-- internal/nodecore/traffic/conngroup.go: the client connections of one core generation, so that
-- closing the core can end them all. A connection is named by a number, and `ended` is the ledger
-- of the connections that the group has called Close on, or hands to its workers to. `holds` has
-- one element for each call of `Hold`: what the func it returned has captured. The mutex makes each
-- method one step. The group and the connection are not nil, for which every method returns at
-- once.
pub mod Covered
pub mod Forget
pub mod Runs
mod Tests
use rapido_go.Prelude.{
  ℕ, ◌+◌, ◌%◌, ◌^◌, Bool, true, false, not, ◌||◌, List, [], ◌∷◌, ◌++◌, Assoc, insert, erase, length,
  get_or, set, nat_eq, if◌then◌else◌,
}

pub record Hold : Type 0 where
  pub conn : ℕ
  pub id : ℕ
  pub kept : Bool
  pub released : Bool

-- The func that does nothing, which `Hold` returns for a refused connection.
abbrev pub refused : ℕ → Hold
refused c = record { conn = c; id = 0; kept = false; released = false }

pub record ConnGroup : Type 0 where
  pub conns : Assoc ℕ ℕ
  pub next : ℕ
  pub closed : Bool
  pub ended : List ℕ
  pub holds : List Hold

-- `NewConnGroup`
abbrev pub new_group : ConnGroup
new_group = record { conns = []; next = 0; closed = false; ended = []; holds = [] }

-- `Hold`; `next` is a uint64.
pub hold : ConnGroup → ℕ → ConnGroup
hold g c =
    let id = (g.next + 1) % 2 ^ 64 in
    if g.closed
    then record g { ended = g.ended ++ (c ∷ []); holds = g.holds ++ (refused c ∷ []) }
    else record g {
      conns = insert id c g.conns;
      next = id;
      holds = g.holds ++ (record { conn = c; id = id; kept = true; released = false } ∷ []);
    }

-- The func that call i of `Hold` returned.
pub release : ConnGroup → ℕ → ConnGroup
release g i =
    let h = get_or g.holds i (refused 0) in
    if not h.kept || h.released then g else record g {
      conns = erase h.id g.conns;
      holds = set g.holds i (record h { released = true });
    }

abbrev pub conns_of : Assoc ℕ ℕ → List ℕ
conns_of [] = []
conns_of ((id, c) ∷ m) = c ∷ conns_of m

-- `CloseAll`
pub close_all : ConnGroup → ConnGroup
close_all g = record g { conns = []; closed = true; ended = g.ended ++ conns_of g.conns }

-- `Len`
pub len : ConnGroup → ℕ
len g = length g.conns
