-- ===== src/Tests/Agent.antt =====
-- An agent on an empty record store.
use emeralddb_src.Base.{ℕ, ◌+◌, ◌<◌, ◌≡◌, refl, some, none, List, [], ◌∷◌, arith, true, false}
use emeralddb_src.Core.{ok, invalidarg}
use emeralddb_src.Memory.{Mem, store32, load32-store32}
use emeralddb_src.Edu.Block.{new_block, agent, running}
use emeralddb_src.Edu.Manager.{Manager, new_manager}
use emeralddb_src.Rtn.{rtn_insert}
use emeralddb_src.Msg.{build_delete, build_inserts, put_header}
use emeralddb_src.Msg.Build.{Built}
use emeralddb_src.Socket.{Attempt, Received, bytes, takes, is_set}
use emeralddb_src.Agent.{AgentBson, performed, perform, process}
use emeralddb_src.Agent.Process.{FitsReply, Answered, process-Answered}
use emeralddb_src.Agent.Request.{inserted, perform-build_delete, perform-build_inserts}
use emeralddb_src.Agent.Loop.{Agent, Round, make_room, round}
use emeralddb_src.Agent.Room.{HasRoom, make_room-HasRoom, make_room_overflow}
use emeralddb_src.Agent.Round.{SendsReply, round-SendsReply}
use emeralddb_src.Agent.Served.{Served}
use emeralddb_src.Tests.Objects.{sized_bson}
use emeralddb_src.Tests.Blank.{blank_file}
use emeralddb_src.Tests.Msg.{small_buffer}

abbrev lib : AgentBson sized_bson
lib = record { readable = λ m a. true; id_is_first = λ o. true; empty = 0; snapshot = some 40 }

lib-FitsReply : FitsReply sized_bson lib
lib-FitsReply = (omega arith, λ o e. small o e)
  where
    small : (o : ℕ) → some 40 ≡ some o → 16 + (o + 1) < 2147483648
    small o e = let d : 40 ≡ o = cc in omega arith

-- A deletion of 14 bytes at address 0.
abbrev deletion : Mem
deletion = put_header (λ x. 0) 0 14 3

process-Answered_example :
    Answered sized_bson lib [] none 0
      (record small_buffer { mem = deletion })
      blank_file
      (process sized_bson lib [] none 0 (record small_buffer { mem = deletion }) blank_file)
process-Answered_example =
    process-Answered sized_bson lib lib-FitsReply [] none 0 (record small_buffer { mem = deletion })
      blank_file (omega arith)

perform-build_delete_example :
    Built none small_buffer 14
      (λ m p. perform sized_bson lib [] m p blank_file ≡ performed invalidarg false 0 blank_file)
      (build_delete sized_bson none small_buffer 5)
perform-build_delete_example =
    perform-build_delete sized_bson lib [] blank_file none small_buffer (omega arith) 5
      (omega arith)

perform-build_inserts_example :
    Built
      (some 1000)
      small_buffer
      22
      (λ m p.
        perform sized_bson lib [] m p blank_file
        ≡ inserted sized_bson lib [] blank_file (rtn_insert sized_bson [] blank_file 5))
      (build_inserts sized_bson (some 1000) small_buffer (5 ∷ 3 ∷ []))
perform-build_inserts_example =
    perform-build_inserts sized_bson lib [] blank_file (some 1000) small_buffer (omega arith) 5
      (3 ∷ []) (λ m a e. refl) refl (omega arith) (omega arith)

-- One agent that runs.
abbrev one_agent : Manager
one_agent = record new_manager {
  run_queue = (1, record (new_block agent) { id = 1; status = running }) ∷ [];
  next_id = 2;
}

abbrev waiting_agent : Agent
waiting_agent = record {
  mem = store32 (λ x. 0) 5000 9000;
  receive = 5000;
  receive_size = 4096;
  result = 100;
  result_size = 16;
  store = blank_file;
  manager = one_agent;
  id = 1;
}

make_room-HasRoom_example :
    HasRoom (some 20000) 9000 waiting_agent (make_room (some 20000) 9000 waiting_agent)
make_room-HasRoom_example =
    make_room-HasRoom (some 20000) 9000 waiting_agent (omega arith) (omega arith)
      (load32-store32 (λ x. 0) 5000 9000 (omega arith))

make_room_overflow_example : make_room none 2147483647 waiting_agent ≡ (ok, waiting_agent)
make_room_overflow_example = make_room_overflow none waiting_agent (omega arith)

abbrev arrives : List ℕ → List (Attempt Received)
arrives s = record { is_forced = false; selects = is_set ∷ []; answers = bytes s ∷ [] } ∷ []

-- A query of eight bytes.
abbrev query_round : Round
query_round = record {
  head = arrives (8 ∷ 0 ∷ 0 ∷ 0 ∷ []);
  grown = none;
  body = arrives (4 ∷ 0 ∷ 0 ∷ 0 ∷ []);
  before_activate = λ m. m;
  reset = none;
  turns = [];
  answer = some 30000;
  sends = record { is_forced = false; selects = is_set ∷ []; answers = takes 17 ∷ [] } ∷ [];
  before_wait = λ m. m;
}

round-SendsReply_example : SendsReply query_round (round sized_bson lib query_round waiting_agent)
round-SendsReply_example =
    round-SendsReply sized_bson lib lib-FitsReply query_round waiting_agent
      (omega arith, omega arith, omega arith)
