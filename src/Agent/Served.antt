-- ===== src/Agent/Served.antt =====
-- The whole loop of pmdAgentEntryPoint (pmd/pmdAgent.cpp).
use emeralddb_src.Base.{ℕ, ◌≡◌, List, [], ◌∷◌, Option, none, some}
use emeralddb_src.Core.{oom}
use emeralddb_src.Bson.{Bson}
use emeralddb_src.Memory.{Mem}
use emeralddb_src.Dms.File.{DmsFile}
use emeralddb_src.Edu.Manager.{Manager}
use emeralddb_src.Agent.{AgentBson}
use emeralddb_src.Agent.Loop.{
  Agent, Round, RoundEnd, LoopEnd, serves, leaves, fails, null_read_at, unfinished_at, round,
  agent_rc, returned_with, goes_on, null_read_after, unfinished_after,
}
use emeralddb_src.Agent.Round.{SendsReply}

-- How the loop ends with a round that does not go on to the next
abbrev pub Ended : RoundEnd → LoopEnd → Type 0
Ended (serves a out) e = ⊥
Ended (leaves rc) e = e ≡ returned_with rc
Ended (fails rc) e = e ≡ returned_with (agent_rc rc)
Ended null_read_at e = e ≡ null_read_after
Ended unfinished_at e = e ≡ unfinished_after

-- The variables before the first round
abbrev pub first_agent : ℕ → ℕ → Mem → DmsFile → Manager → ℕ → Agent
first_agent p q m f mgr id = record {
  mem = m;
  receive = p;
  receive_size = 4096;
  result = q;
  result_size = 16;
  store = f;
  manager = mgr;
  id = id;
}

module _ (bson : Bson) (lib : AgentBson bson) where
  -- The messages sent over the rounds, and the end: each round that goes on to the next sends one, and the loop
  -- ends with the first round that does not.
  pub data Serving : List Round → Agent → List (List ℕ) → LoopEnd → Type 0 where
    waits_on : (a : Agent) → Serving [] a [] (goes_on a)
    serves_on :
        (t : Round) (ts : List Round) (a a' : Agent) (out : List ℕ) {sent : List (List ℕ)}
        {e : LoopEnd}
        → round bson lib t a ≡ serves a' out
        → SendsReply t (serves a' out)
        → Serving ts a' sent e
        → Serving (t ∷ ts) a (out ∷ sent) e
    ends :
        (t : Round) (ts : List Round) (a : Agent) {e : LoopEnd}
        → Ended (round bson lib t a) e
        → Serving (t ∷ ts) a [] e

  -- pmdAgentEntryPoint sends nothing if a buffer cannot be made, and serves over the rounds if both can.
  abbrev pub Served :
      Option ℕ
      → Option ℕ
      → List Round
      → Mem
      → DmsFile
      → Manager
      → ℕ
      → List (List ℕ) × LoopEnd
      → Type 0
  Served none result ts m f mgr id (sent, e) = (sent ≡ []) × (e ≡ returned_with oom)
  Served (some p) none ts m f mgr id (sent, e) = (sent ≡ []) × (e ≡ returned_with oom)
  Served (some p) (some q) ts m f mgr id (sent, e) = Serving ts (first_agent p q m f mgr id) sent e
