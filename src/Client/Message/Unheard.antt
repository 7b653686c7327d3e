-- ===== src/Client/Message/Unheard.antt =====
-- `recvReply` of client/command.cpp when the socket fails before the length of the reply has come.
use emeralddb_src.Base.{
  ℕ, ◌+◌, ◌≤◌, ◌≡◌, ◌∙◌, refl, ap, List, [], ◌∷◌, Option, none, some, arith, true,
}
use emeralddb_src.Core.{ok, network, rc_word}
use emeralddb_src.Bson.{Bson}
use emeralddb_src.Memory.{Mem, fill, load32}
use emeralddb_src.Msg.{build_insert}
use emeralddb_src.Socket.{Received, bytes, closed, interrupted, failed, await, recv, recv_loop}
use emeralddb_src.Client.Message.{
  Receipt, Answers, recv_buf_size, recv_patiently, recv_body, use_length, recv_reply, send_order,
  handle_code, use_reply, use_order, execute_object, execute_insert,
}
use emeralddb_src.Client.Message.Reported.{Reports}

fill_word :
    (m : Mem) (a d : ℕ) → d + 4 ≤ recv_buf_size → load32 (fill m a 0 recv_buf_size) (a + d) ≡ 0
unfolding load32 fill
fill_word m a d h = ground arith

-- A length below zero is received at once.
recv_loop_negative :
    (answers : List Received) (m : Mem) (p : ℕ) → recv_loop answers 0 m p 4294967292 ≡ some (ok, m)
unfolding recv_loop
recv_loop_negative [] m p = refl
recv_loop_negative (bytes s ∷ rest) m p = refl
recv_loop_negative (closed ∷ rest) m p = refl
recv_loop_negative (interrupted ∷ rest) m p = refl
recv_loop_negative (failed ∷ rest) m p = refl

-- What the socket does: it fails while the length is awaited, and is ready for the rest.
pub record FailsFirst (a : Answers) : Type 0 where
  pub still : a.still_connected ≡ true
  pub first : Receipt
  pub others : List Receipt
  pub lengths_are : a.lengths ≡ first ∷ others
  pub breaks : await first.selects ≡ some network
  pub next : Receipt
  pub more : List Receipt
  pub bodies_are : a.bodies ≡ next ∷ more
  pub ready : await next.selects ≡ some ok

module _ (a : Answers) (f : FailsFirst a) (m : Mem) (r : ℕ) where
  abbrev clean : Mem
  clean = fill m r 0 recv_buf_size

  first_lem : recv_patiently a.lengths clean r 4 ≡ some (network, clean)
  unfolding recv_patiently recv
  first_lem = rw (f.lengths_are, f.breaks, recv_patiently, recv) refl

  length_lem : use_length a.bodies clean r ≡ some (0, none, clean)
  unfolding use_length recv_body recv_patiently recv rc_word
  length_lem =
      let zero_length : load32 clean r ≡ 0 =
        ap (load32 clean) (omega arith) ∙ fill_word m r 0 (omega arith) in
      let loop = recv_loop_negative f.next.answers clean (r + 4) in
      rw (zero_length, f.bodies_are, f.ready, loop, use_length, recv_body, recv_patiently, recv)
        refl

  recv_reply_unheard : recv_reply a m r ≡ some (0, none, clean)
  unfolding recv_reply
  recv_reply_unheard = rw (first_lem, length_lem, f.still, recv_reply) refl

blank_code :
    (bson : Bson) (fromjson : List ℕ → Option bson.Obj) (m : Mem) (r : ℕ)
    → handle_code bson fromjson (fill m r 0 recv_buf_size) r ≡ (0, none)
unfolding handle_code
blank_code bson fromjson m r = rw (fill_word m r 8 (omega arith)) refl

-- InsertCommand::execute, whose insertion is sent, while the socket stays connected, fails with
-- EDB_NETWORK while the length of the reply is awaited, and is then ready: it returns EDB_OK,
-- although no byte of a reply has come.
pub execute_insert_unheard :
    (bson : Bson) (fromjson : List ℕ → Option bson.Obj) (a : Answers) (m : Mem) (s r : ℕ)
    (json : List ℕ) (rest : List (List ℕ)) (m1 : Mem) (out : List ℕ)
    → a.connected ≡ true
    → FailsFirst a
    → send_order bson fromjson (build_insert bson) a m s json ≡ some (0, none, m1, out)
    → Reports bson 0 out none (execute_insert bson fromjson a m s r (json ∷ rest))
unfolding execute_insert execute_object use_order use_reply
execute_insert_unheard bson fromjson a m s r json rest m1 out connected f sent =
    let heard = recv_reply_unheard a f m1 r in
    let silent = blank_code bson fromjson m1 r in
    rw (sent, heard, silent, connected, execute_insert, execute_object, use_order, use_reply)
      (refl, refl, refl, refl)
