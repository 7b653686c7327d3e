-- ===== src/Agent/Round.antt =====
-- The rounds of pmdAgentEntryPoint (pmd/pmdAgent.cpp).
use emeralddb_src.Base.{
  ℕ, ◌+◌, ◌<◌, ◌≤◌, ◌≡◌, refl, ◌⊎◌, inl, inr, List, [], Option, none, some, arith, Bool-cases,
  Option-cases, true, false, ap, ◌∙◌, if_cases,
}
use emeralddb_src.Core.{Rc, ok, is_error}
use emeralddb_src.Bson.{Bson}
use emeralddb_src.Memory.{Mem, load32, lt_int, add32, sub32}
use emeralddb_src.Dms.File.{DmsFile}
use emeralddb_src.Edu.Manager.{activate_edu, wait_edu}
use emeralddb_src.Msg.{Buffer, message_len, extract_reply, reply_size}
use emeralddb_src.Socket.{pmd_send, pmd_recv}
use emeralddb_src.Agent.{AgentBson, Processed, processed, null_read_in, unfinished_in}
use emeralddb_src.Agent.Process.{FitsReply, Answered, Replies, process-Answered}
use emeralddb_src.Agent.Loop.{
  Agent, Round, RoundEnd, serves, round_up, make_room, reset_result, end_round, after_process,
  result_buffer, answer_packet, serve, received, receive_body, round, is_app_forced,
}

-- The sizes of the two buffers are ints, and the result buffer takes a reply without an object.
abbrev pub Sized : Agent → Type 0
Sized a = (a.receive_size < 2147483648) × (16 ≤ a.result_size) × (a.result_size < 2147483648)

round_up-word : (x : ℕ) → round_up x < 4294967296
unfolding round_up
round_up-word x = omega arith

make_room_sizes :
    (answer : Option ℕ) (len : ℕ) (a : Agent) → Sized a → Sized (make_room answer len a).1
unfolding make_room
make_room_sizes answer len a h = elim (Bool-cases (lt_int a.receive_size (add32 len 1))) [
  | inr enough ↦ rw (enough, make_room) h
  | inl grows ↦ elim (Bool-cases (lt_int (round_up (add32 len 1)) 0)) [
    | inl negative ↦ rw (grows, negative, make_room) h
    | inr positive ↦ elim (Option-cases answer) [
      | inl n ↦ rw (grows, positive, n, make_room) h
      | inr (p, e) ↦
          rw (grows, positive, e, make_room)
            (below (round_up (add32 len 1)) (round_up-word (add32 len 1)) positive, h.1, h.2)
    ]
  ]
]
  where
    below : (x : ℕ) → x < 4294967296 → lt_int x 0 ≡ false → x < 2147483648
    below x h e = ground arith

reset_result_size :
    (answer : Option ℕ) (a : Agent)
    → Sized a
    → Sized (reset_result answer a).1
      × (is_error (reset_result answer a).0 ≡ false → (reset_result answer a).1.result_size ≡ 16)
unfolding reset_result
reset_result_size answer a h = elim (Bool-cases (lt_int reply_size a.result_size)) [
  | inr small ↦ rw (small, reset_result) (h, λ e. ground arith)
  | inl large ↦ elim (Option-cases answer) [
    | inl n ↦ rw (large, n, reset_result) (h, λ e. absurd cc)
    | inr (p, e) ↦ rw (large, e, reset_result) ((h.0, omega arith, omega arith), λ e. refl)
  ]
]

-- A round that goes on with `a'` has sent the message in the result buffer of `a'`, and `out` is what pmdSend put on
-- the wire. The message is a reply, or realloc has failed in this round.
abbrev pub SendsReply : Round → RoundEnd → Type 0
SendsReply t (serves a' out) =
    Sized a'
    × (pmd_send t.sends a'.mem a'.result (message_len a'.mem a'.result) ≡ some (ok, out))
    × (((extract_reply a'.mem a'.result).0 ≡ ok) ⊎ (t.answer ≡ none))
SendsReply t _ = Unit {0}

no_error : (rc : Rc) → is_error rc ≡ false → rc ≡ ok
no_error ok e = refl
no_error _ e = absurd cc

-- The variables after pmdProcessAgentRequest
abbrev stored_at : Agent → Buffer → DmsFile → Agent
stored_at a b f = record a { mem = b.mem; result = b.start; result_size = b.size; store = f }

module _ (t : Round) (a : Agent) (sized : Sized a) where
  end_round-SendsReply :
      (out : List ℕ)
      → pmd_send t.sends a.mem a.result (message_len a.mem a.result) ≡ some (ok, out)
      → ((extract_reply a.mem a.result).0 ≡ ok) ⊎ (t.answer ≡ none)
      → SendsReply t (end_round t a false out)
  unfolding end_round
  end_round-SendsReply out sent replied =
      if_cases (SendsReply t) (is_error (wait_edu a.id (t.before_wait a.manager)).0) _ _ (λ e. tt)
        λ e. (sized, sent, replied)

  end_round_disconnect : (out : List ℕ) → SendsReply t (end_round t a true out)
  unfolding end_round
  end_round_disconnect out =
      if_cases (SendsReply t) (is_error (wait_edu a.id (t.before_wait a.manager)).0) _ _ (λ e. tt)
        λ e. tt

module _ (bson : Bson) (lib : AgentBson bson) (fits : FitsReply bson lib) (t : Round) where
  after_process-SendsReply :
      (a : Agent)
      → Sized a
      → a.result_size ≡ 16
      → (r : Processed) → Answered bson lib t.turns t.answer a.receive (result_buffer a) a.store r
      → SendsReply t (after_process t a r)
  unfolding after_process
  after_process-SendsReply a sized small null_read_in h = tt
  after_process-SendsReply a sized small unfinished_in h = tt
  after_process-SendsReply a sized small (processed rc true b f) (op, e, same, kept) =
      let z : b.size ≡ a.result_size = ap (λ x. x.size) same in
      end_round_disconnect t (stored_at a b f) (sized.0, omega arith, omega arith) []
  after_process-SendsReply a sized small (processed rc false b f) (o, kind, replies, stored) =
      elim (Option-cases (pmd_send t.sends b.mem b.start (message_len b.mem b.start))) [
        | inl n ↦ rw n tt
        | inr ((sent, out), e) ↦ rw e (
            if_cases (SendsReply t) (is_error sent) _ _ (λ w. tt)
              λ w.
                end_round-SendsReply t (stored_at a b f) (sized.0, large replies, below replies) out
                  (e ∙ ap (λ rc. some (rc, out)) (no_error sent w)) (answered replies))
      ]
    where
      large : Replies bson lib t.answer (result_buffer a) rc o b → 16 ≤ b.size
      large (inl (code, len, all, fits, bound, frame)) = omega arith
      large (inr (same, failed, less)) =
          let z : b.size ≡ a.result_size = ap (λ x. x.size) same in omega arith

      below : Replies bson lib t.answer (result_buffer a) rc o b → b.size < 2147483648
      below (inl (code, len, all, fits, bound, frame)) = bound
      below (inr (same, failed, less)) =
          let z : b.size ≡ a.result_size = ap (λ x. x.size) same in omega arith

      answered :
          Replies bson lib t.answer (result_buffer a) rc o b
          → ((extract_reply b.mem b.start).0 ≡ ok) ⊎ (t.answer ≡ none)
      answered (inl h) = inl (ap (λ r. r.0) (h.0))
      answered (inr (same, failed, less)) = inr failed

  serve-SendsReply : (a : Agent) → Sized a → SendsReply t (serve bson lib t a)
  unfolding serve answer_packet
  serve-SendsReply a sized =
      let a1 = record a { manager = (activate_edu a.id (t.before_activate a.manager)).1 } in
      let (sized', small) = reset_result_size t.reset a1 sized in
      if_cases (SendsReply t) (is_error (activate_edu a.id (t.before_activate a.manager)).0) _ _
        (λ e. tt)
        λ e.
          if_cases (SendsReply t) (is_error (reset_result t.reset a1).0) _ _ (λ e. tt)
            λ e.
              after_process-SendsReply (reset_result t.reset a1).1 sized' (small e) _
                (process-Answered bson lib fits t.turns t.answer _ _ _ sized'.2)

  received-SendsReply :
      (r : Option (Rc × Mem)) (a : Agent) (next : Agent → RoundEnd)
      → ((m : Mem) → SendsReply t (next (record a { mem = m })))
      → SendsReply t (received bson lib r a next)
  received-SendsReply none a next h = tt
  received-SendsReply (some (rc, m)) a next h =
      if_cases (SendsReply t) (is_app_forced rc) _ _ (λ e. tt)
        λ e. if_cases (SendsReply t) (is_error rc) _ _ (λ e. tt) λ e. h m

  -- A round of the loop, begun with the sizes of the buffers in bounds, whatever is received: see `SendsReply`.
  pub round-SendsReply : (a : Agent) → Sized a → SendsReply t (round bson lib t a)
  unfolding round receive_body
  round-SendsReply a sized = received-SendsReply (pmd_recv t.head a.mem a.receive 4) a _ λ m.
      let len = load32 m a.receive in
      let a1 = record a { mem = m } in
      if_cases (SendsReply t) (lt_int len 4) _ _ (λ e. tt)
        λ e.
          if_cases (SendsReply t) (is_error (make_room t.grown len a1).0) _ _ (λ e. tt)
            λ e.
              let a2 = (make_room t.grown len a1).1 in
              received-SendsReply (pmd_recv t.body a2.mem (a2.receive + 4) (sub32 len 4)) a2 _
                λ m'. serve-SendsReply _ (make_room_sizes t.grown len a1 sized)
