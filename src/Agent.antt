-- ===== src/Agent.antt =====
-- pmd/pmdAgent.cpp: the thread that serves one client. `process` is pmdProcessAgentRequest, on a packet in
-- memory.
pub mod Process
pub mod Request
pub mod Loop
pub mod Room
pub mod Round
pub mod Served
use emeralddb_src.Base.{
  ℕ, ◌+◌, Bool, true, false, not, ◌||◌, List, Option, none, some, ◌==◌, if◌then◌else◌,
}
use emeralddb_src.Core.{Rc, ok, invalidarg, no_id, is_error, rc_word}
use emeralddb_src.Bson.{Bson}
use emeralddb_src.Memory.{Mem, lt_int}
use emeralddb_src.Dms.File.{DmsFile}
use emeralddb_src.Dms.Insertion.{Turn}
use emeralddb_src.Rtn.{rtn_insert, rtn_find, rtn_remove}
use emeralddb_src.Msg.{
  Buffer, message_len, op_code, header_size, query_size, extract_insert, extract_query, build_reply,
  op_insert, op_query, op_delete, op_snapshot, op_command, op_disconnect,
}

-- What the agent asks of the BSON library besides: whether the constructor over a pointer, and the printing
-- of the object, throw nothing; whether the first field of an object is named _id; the object without a
-- field; and the object that answers a snapshot, `none` if its builder throws.
pub record AgentBson (bson : Bson) : Type 0 where
  pub readable : Mem → ℕ → Bool
  pub id_is_first : bson.Obj → Bool
  pub empty : bson.Obj
  pub snapshot : Option bson.Obj

-- pmdProcessAgentRequest up to `done`: its rc, `*disconnect`, `retObj` and the record store. The others are
-- a NULL pointer that is read, and an insertion that has not returned.
pub data Performed (O : Type 0) : Type 0 where
  performed : Rc → Bool → O → DmsFile → Performed O
  null_read unfinished : Performed O

-- The whole of it: rc, `*disconnect`, the result buffer and the record store
pub data Processed : Type 0 where
  processed : Rc → Bool → Buffer → DmsFile → Processed
  null_read_in unfinished_in : Processed

-- The address of the first object that msgExtractInsert sets, NULL on an error
abbrev pub insertor_at : Option (ℕ × Option ℕ) → Option ℕ
insertor_at none = none
insertor_at (some (count, start)) = start

module _ (bson : Bson) (lib : AgentBson bson) where
  open bson use {Obj, obj_at}
  open lib use {readable, id_is_first, empty, snapshot}

  -- The branch of OP_INSERT
  unfoldable pub perform_insert : List Turn → Mem → ℕ → DmsFile → Performed Obj
  perform_insert turns m p f =
      let (rc, out) = extract_insert m p in
      if is_error rc then performed invalidarg false empty f else elim (insertor_at out) [
        | none ↦ null_read
        | some a ↦
            let o = obj_at m a in
            if not (readable m a)
            then performed invalidarg false empty f
            else if not (id_is_first o)
            then performed no_id false empty f
            else elim (rtn_insert bson turns f o) [
              | none ↦ unfinished
              | some (rc', g) ↦ performed rc' false empty g
            ]
      ]

  abbrev pub record_id : Option Obj → Obj
  record_id none = empty
  record_id (some o) = o

  -- The branches of OP_QUERY and OP_DELETE, which call `run`
  unfoldable pub perform_keyed : (DmsFile → Obj → Rc × DmsFile) → Mem → ℕ → DmsFile → Performed Obj
  perform_keyed run m p f =
      let (rc, out) = extract_query bson m p in
      let (run_rc, g) = run f (record_id out) in
      if is_error rc
      then performed invalidarg false empty f
      else if not (readable m (p + query_size))
      then performed invalidarg false empty f
      else performed run_rc false empty g

  -- pmdProcessAgentRequest up to `done`
  unfoldable pub perform : List Turn → Mem → ℕ → DmsFile → Performed Obj
  perform turns m p f =
      let op = op_code m p in
      if lt_int (message_len m p) header_size
      then performed invalidarg false empty f
      else if op == op_insert
      then perform_insert turns m p f
      else if op == op_query
      then perform_keyed (rtn_find bson) m p f
      else if op == op_delete
      then perform_keyed (rtn_remove bson) m p f
      else if op == op_snapshot
      then elim snapshot [
        | none ↦ performed invalidarg false empty f
        | some o ↦ performed ok false o f
      ]
      else if op == op_command
      then performed ok false empty f
      else if op == op_disconnect
      then performed ok true empty f
      else performed invalidarg false empty f

  -- The object of the reply
  abbrev pub reply_object : ℕ → Obj → Option Obj
  reply_object op o = if op == op_snapshot || op == op_query then some o else none

  -- pmdProcessAgentRequest from `done` on. What msgBuildReply returns is not looked at.
  unfoldable pub reply : Option ℕ → Buffer → ℕ → Performed Obj → Processed
  reply answer b op (performed rc disconnect o f) =
      if disconnect
      then processed rc true b f
      else processed rc false (build_reply bson answer b (rc_word rc) (reply_object op o)).1 f
  reply answer b op null_read = null_read_in
  reply answer b op unfinished = unfinished_in

  -- pmdProcessAgentRequest of the packet at `p`, with the result buffer `b`
  unfoldable pub process : List Turn → Option ℕ → ℕ → Buffer → DmsFile → Processed
  process turns answer p b f = reply answer b (op_code b.mem p) (perform turns b.mem p f)
