-- ===== src/Client/Message/Reported.antt =====
-- The commands of client/command.cpp on the reply that the server builds with msg/msg.cpp.
use emeralddb_src.Base.{
  ℕ, ◌+◌, ◌≤◌, ◌<◌, ◌≡◌, refl, ap, ◌∙◌, List, ◌∷◌, Option, none, some, arith, length, ◌==◌, not,
  true, Bool-cases, inl, inr, if◌then◌else◌,
}
use emeralddb_src.Core.{Rc}
use emeralddb_src.Bson.{Bson}
use emeralddb_src.Memory.{Mem, load32, load32_shift}
use emeralddb_src.Msg.{Buffer, build_insert, build_query, build_delete}
use emeralddb_src.Msg.Objects.{returned, total_size}
use emeralddb_src.Client.{
  error_text, insert_invalid_argument, query_invalid_argument, delete_invalid_argument,
}
use emeralddb_src.Client.Message.{
  Answers, Executed, recv_buf_size, send_order, handle_code, handle_query, use_reply, use_order,
  execute_object, execute_insert, execute_query, execute_delete,
}
use emeralddb_src.Client.Message.Replied.{HoldsObject, IsReply}
use emeralddb_src.Client.Message.Delivered.{Arrives, recv_reply-Delivers}

module _ (bson : Bson) where
  open bson use {Obj, objsize, objdata, obj_at, obj_at-objdata, length-objdata}

  -- The command returns the code and prints its text and the object.
  abbrev pub Reports : ℕ → List ℕ → Option Obj → Option (Executed Obj) → Type 0
  Reports code out o none = ⊥
  Reports code out o (some e) =
      (e.code ≡ code) × (e.sent ≡ out) × (e.said ≡ error_text code) × (e.shown ≡ o)

  -- The object of a reply is shown if the code is EDB_OK.
  abbrev pub answer_of : ℕ → Option Obj → Option Obj
  answer_of code o = if code == 0 then o else none

  -- The object read is the one of the reply, if there is one.
  abbrev IsIt : Obj → Option Obj → Type 0
  IsIt x none = Unit {0}
  IsIt x (some o) = x ≡ o

  query_answer :
      (code : ℕ) (x : Obj) (o : Option Obj)
      → IsIt x o
      → ◌≡◌ {A = ℕ × Option Obj}
          (if not (code == 0)
            then (code, none)
            else if not (length (returned o) == 0)
            then (code, some x)
            else (code, none))
          (code, answer_of code o)
  query_answer code x none h = elim (Bool-cases (code == 0)) [
    | inl e ↦ rw e refl
    | inr e ↦ rw e refl
  ]
  query_answer code x (some o) h = elim (Bool-cases (code == 0)) [
    | inl e ↦ rw (e, h) refl
    | inr e ↦ rw e refl
  ]

module _ (bson : Bson) (fromjson : List ℕ → Option bson.Obj) where
  open bson use {Obj, objsize, objdata, obj_at, obj_at-objdata, length-objdata}

  module _ (m0 : Mem) (p code : ℕ) (o : Option Obj) (reply : IsReply bson m0 p code o)
      (fits : 16 + total_size bson (returned o) ≤ recv_buf_size) where
    -- `handle` reads the code and the object of every copy of the reply.
    abbrev Handles : (Mem → ℕ → ℕ × Option Obj) → Option Obj → Type 0
    Handles handle shown =
        (m : Mem) (r : ℕ)
        → ((k : ℕ) → k < 16 + total_size bson (returned o) → m (r + k) ≡ m0 (p + k))
        → handle m r ≡ (code, shown)

    module _ (m : Mem) (r : ℕ)
        (copied : (k : ℕ) → k < 16 + total_size bson (returned o) → m (r + k) ≡ m0 (p + k)) where
      word_copied : (d : ℕ) → d + 4 ≤ 16 → load32 m (r + d) ≡ load32 m0 (p + d)
      word_copied d h =
          load32_shift m0 m p r (16 + total_size bson (returned o)) d (r + d) (p + d) copied
            (omega arith) refl refl

      handle_code_lem : handle_code bson fromjson m r ≡ (code, none)
      unfolding handle_code
      handle_code_lem = rw (word_copied 8 (omega arith), reply.code_is) refl

    read_copied :
        (m : Mem) (r : ℕ) (x : Option Obj)
        → HoldsObject bson m0 (p + 16) x
        → ((k : ℕ) → k < total_size bson (returned x) → m (r + 16 + k) ≡ m0 (p + 16 + k))
        → IsIt bson (obj_at m (r + 16)) x
    read_copied m r none h copied = tt
    read_copied m r (some x) h copied =
        obj_at-objdata m (r + 16) x λ k l. copied k (omega (arith, length-objdata x)) ∙ h k l

    handle_query_lem :
        (m : Mem) (r : ℕ)
        → ((k : ℕ) → k < 16 + total_size bson (returned o) → m (r + k) ≡ m0 (p + k))
        → handle_query bson fromjson m r ≡ (code, answer_of bson code o)
    unfolding handle_query
    handle_query_lem m r copied =
        rw
          (
            word_copied m r copied 8 (omega arith),
            reply.code_is,
            word_copied m r copied 12 (omega arith),
            reply.count_is,
          )
          (query_answer bson code (obj_at m (r + 16)) o (
            read_copied m r o reply.holds
              λ k l. ap m (omega arith) ∙ copied (16 + k) (omega arith) ∙ ap m0 (omega arith)))

    module _ (a : Answers) (connected : a.connected ≡ true)
        (arrives : Arrives m0 p (16 + total_size bson (returned o)) a) (m : Mem) (s r : ℕ)
        (json : List ℕ) (rest : List (List ℕ)) (m1 : Mem) (out : List ℕ) where
      executed :
          (build : Option ℕ → Buffer → Obj → Rc × Buffer) (handle : Mem → ℕ → ℕ × Option Obj)
          (invalid : ℕ) (shown : Option Obj)
          → Handles handle shown
          → send_order bson fromjson build a m s json ≡ some (0, none, m1, out)
          → Reports bson code out shown
              (execute_object bson fromjson build handle invalid a m s r (json ∷ rest))
      unfolding execute_object use_order use_reply
      executed build handle invalid shown handles sent =
          let (m', delivered, copied, frame) =
            recv_reply-Delivers m0 p (16 + total_size bson (returned o)) reply.size (omega arith)
              fits a arrives m1 r in
          rw (sent, delivered, handles m' r copied, connected, execute_object, use_order, use_reply)
            (refl, refl, refl, refl)

      -- A reply with a code, and an object or none, of at most 4096 bytes in all, arrives behind an
      -- insertion that was sent, while the socket is connected: InsertCommand::execute returns that
      -- code and prints its text.
      pub execute_insert-Reports :
          send_order bson fromjson (build_insert bson) a m s json ≡ some (0, none, m1, out)
          → Reports bson code out none (execute_insert bson fromjson a m s r (json ∷ rest))
      unfolding execute_insert
      execute_insert-Reports =
          executed (build_insert bson) (handle_code bson fromjson) insert_invalid_argument none
            handle_code_lem

      -- A reply with a code, and an object or none, of at most 4096 bytes in all, arrives behind a
      -- query that was sent, while the socket is connected: QueryCommand::execute returns that
      -- code, prints its text, and shows the object if the code is EDB_OK.
      pub execute_query-Reports :
          send_order bson fromjson (build_query bson) a m s json ≡ some (0, none, m1, out)
          → Reports bson code out
              (answer_of bson code o)
              (execute_query bson fromjson a m s r (json ∷ rest))
      unfolding execute_query
      execute_query-Reports =
          executed (build_query bson) (handle_query bson fromjson) query_invalid_argument
            (answer_of bson code o) handle_query_lem

      -- The same of a deletion.
      pub execute_delete-Reports :
          send_order bson fromjson (build_delete bson) a m s json ≡ some (0, none, m1, out)
          → Reports bson code out none (execute_delete bson fromjson a m s r (json ∷ rest))
      unfolding execute_delete
      execute_delete-Reports =
          executed (build_delete bson) (handle_code bson fromjson) delete_invalid_argument none
            handle_code_lem
