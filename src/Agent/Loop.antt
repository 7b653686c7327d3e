-- ===== src/Agent/Loop.antt =====
-- pmd/pmdAgent.cpp: pmdAgentEntryPoint, the loop that receives a packet, has it processed, and sends the
-- reply. What the system answers, and what the other threads do to the manager, is an argument.
use emeralddb_src.Base.{
  ℕ, ◌+◌, ◌-◌, ◌%◌, Bool, true, false, not, List, [], ◌∷◌, Option, none, some, ltb, if◌then◌else◌,
}
use emeralddb_src.Core.{Rc, ok, oom, invalidarg, network_close, app_forced, is_error}
use emeralddb_src.Bson.{Bson}
use emeralddb_src.Memory.{Mem, load32, store32, copy, lt_int, add32, sub32}
use emeralddb_src.Dms.File.{DmsFile}
use emeralddb_src.Dms.Insertion.{Turn}
use emeralddb_src.Edu.Manager.{Manager, activate_edu, wait_edu}
use emeralddb_src.Msg.{Buffer, message_len, reply_size}
use emeralddb_src.Socket.{Attempt, Received, Taken, pmd_recv, pmd_send}
use emeralddb_src.Agent.{AgentBson, Processed, processed, null_read_in, unfinished_in, process}

-- The variables of pmdAgentEntryPoint, with the memory, the record store and the manager
pub record Agent : Type 0 where
  pub mem : Mem
  pub receive : ℕ
  pub receive_size : ℕ
  pub result : ℕ
  pub result_size : ℕ
  pub store : DmsFile
  pub manager : Manager
  pub id : ℕ

-- What one round of the loop meets: the two receptions, the two calls of malloc, what other threads do to the
-- manager before activateEDU and before waitEDU, the turns of an insertion, the call of realloc, and the sending.
pub record Round : Type 0 where
  pub head : List (Attempt Received)
  pub grown : Option ℕ
  pub body : List (Attempt Received)
  pub before_activate : Manager → Manager
  pub reset : Option ℕ
  pub turns : List Turn
  pub answer : Option ℕ
  pub sends : List (Attempt Taken)
  pub before_wait : Manager → Manager

-- What a round comes to: the next one, with the bytes sent; the end of the loop by a disconnect; a jump to
-- `error`; a NULL pointer that is read; or a call that has not returned.
pub data RoundEnd : Type 0 where
  serves : Agent → List ℕ → RoundEnd
  leaves : Rc → RoundEnd
  fails : Rc → RoundEnd
  null_read_at unfinished_at : RoundEnd

-- The return code after `error`
abbrev pub agent_rc : Rc → Rc
agent_rc network_close = ok
agent_rc rc = rc

-- The loop: what was sent in each round, and the return code once it has ended
pub data LoopEnd : Type 0 where
  returned_with : Rc → LoopEnd
  goes_on : Agent → LoopEnd
  null_read_after unfinished_after : LoopEnd

-- a % n of a C int
abbrev rem_int : ℕ → ℕ → ℕ
rem_int a n = if ltb a 2147483648 then a % n else (4294967296 - (4294967296 - a) % n) % 4294967296

-- ossRoundUpToMultipleX ( x, EDB_PAGE_SIZE )
unfoldable pub round_up : ℕ → ℕ
round_up x = let y = add32 x 4095 in sub32 y (rem_int y 4096)

-- The receive buffer is made large enough for a packet of `len` bytes and a zero; `answer` is malloc's.
unfoldable pub make_room : Option ℕ → ℕ → Agent → Rc × Agent
make_room answer len a =
    let new = round_up (add32 len 1) in
    if not (lt_int a.receive_size (add32 len 1))
    then (ok, a)
    else if lt_int new 0
    then (invalidarg, a)
    else elim answer [
      | none ↦ (oom, a)
      | some p ↦ (ok, record a { mem = store32 a.mem p len; receive = p; receive_size = new })
    ]

-- The result buffer is made as small as a reply without an object.
unfoldable pub reset_result : Option ℕ → Agent → Rc × Agent
reset_result answer a = if not (lt_int reply_size a.result_size) then (ok, a) else elim answer [
  | none ↦ (oom, a)
  | some p ↦ (ok, record a { result = p; result_size = reply_size })
]

abbrev pub is_app_forced : Rc → Bool
is_app_forced app_forced = true
is_app_forced _ = false

-- The end of a round, with waitEDU
unfoldable pub end_round : Round → Agent → Bool → List ℕ → RoundEnd
end_round t a disconnect out =
    let (rc, m) = wait_edu a.id (t.before_wait a.manager) in
    if is_error rc
    then fails rc
    else if disconnect
    then leaves rc
    else serves (record a { manager = m }) out

-- A round from what pmdProcessAgentRequest returns on
unfoldable pub after_process : Round → Agent → Processed → RoundEnd
after_process t a null_read_in = null_read_at
after_process t a unfinished_in = unfinished_at
after_process t a (processed rc disconnect b f) =
    let a' = record a { mem = b.mem; result = b.start; result_size = b.size; store = f } in
    if disconnect
    then end_round t a' true []
    else elim (pmd_send t.sends b.mem b.start (message_len b.mem b.start)) [
      | none ↦ unfinished_at
      | some (sent, out) ↦ if is_error sent then fails sent else end_round t a' false out
    ]

-- The result buffer
abbrev pub result_buffer : Agent → Buffer
result_buffer a = record { mem = a.mem; start = a.result; size = a.result_size }

module _ (bson : Bson) (lib : AgentBson bson) where
  -- A round from the call of pmdProcessAgentRequest on
  unfoldable pub answer_packet : Round → Agent → RoundEnd
  answer_packet t a =
      after_process t a (process bson lib t.turns t.answer a.receive (result_buffer a) a.store)

  -- A round from activateEDU on
  unfoldable pub serve : Round → Agent → RoundEnd
  serve t a =
      let (rc, m) = activate_edu a.id (t.before_activate a.manager) in
      let (reset_rc, a') = reset_result t.reset (record a { manager = m }) in
      if is_error rc
      then fails rc
      else if is_error reset_rc
      then fails reset_rc
      else answer_packet t a'

  -- What follows a pmdRecv: with EDB_APP_FORCED the loop ends, with another error it jumps to `error`.
  abbrev pub received : Option (Rc × Mem) → Agent → (Agent → RoundEnd) → RoundEnd
  received none a next = unfinished_at
  received (some (rc, m)) a next =
      if is_app_forced rc
      then leaves rc
      else if is_error rc
      then fails rc
      else next (record a { mem = m })

  -- A round from the receipt of the body on
  unfoldable pub receive_body : Round → ℕ → Agent → RoundEnd
  receive_body t len a =
      received (pmd_recv t.body a.mem (a.receive + 4) (sub32 len 4)) a
        λ a'. serve t (record a' { mem = copy a'.mem (a'.receive + len) (0 ∷ []) })

  -- A round of the loop of pmdAgentEntryPoint
  unfoldable pub round : Round → Agent → RoundEnd
  round t a = received (pmd_recv t.head a.mem a.receive 4) a λ a'.
      let len = load32 a'.mem a'.receive in
      let (rc, a'') = make_room t.grown len a' in
      if lt_int len 4
      then fails invalidarg
      else if is_error rc
      then fails rc
      else receive_body t len a''

  -- The loop over the rounds to come
  unfoldable pub loop : List Round → Agent → List (List ℕ) × LoopEnd
  loop [] a = ([], goes_on a)
  loop (t ∷ ts) a = elim (round t a) [
    | serves a' out ↦ let (sent, e) = loop ts a' in (out ∷ sent, e)
    | leaves rc ↦ ([], returned_with rc)
    | fails rc ↦ ([], returned_with (agent_rc rc))
    | null_read_at ↦ ([], null_read_after)
    | unfinished_at ↦ ([], unfinished_after)
  ]

  -- pmdAgentEntryPoint, with the answers of the two first calls of malloc
  unfoldable pub entry_point :
      Option ℕ → Option ℕ → List Round → Mem → DmsFile → Manager → ℕ → List (List ℕ) × LoopEnd
  entry_point receive result ts m f mgr id = elim receive [
    | none ↦ ([], returned_with oom)
    | some p ↦ elim result [
      | none ↦ ([], returned_with oom)
      | some q ↦ loop ts (record {
        mem = m;
        receive = p;
        receive_size = round_up 4096;
        result = q;
        result_size = reply_size;
        store = f;
        manager = mgr;
        id = id;
      })
    ]
  ]
