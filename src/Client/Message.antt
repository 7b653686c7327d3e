-- ===== src/Client/Message.antt =====
-- client/command.cpp: the commands, with the order that they send and the reply that they receive. `none` is a
-- call that has not returned after the answers given.
pub mod Delivered
pub mod Replied
pub mod Reported
pub mod Unheard
pub mod Ordered
use Prim.Native.String.{String}
use emeralddb_src.Base.{
  ℕ, ◌+◌, Bool, true, false, not, List, [], ◌∷◌, Option, none, some, ◌==◌, if◌then◌else◌,
}
use emeralddb_src.Core.{Rc, ok, network, network_close, is_error, rc_word}
use emeralddb_src.Memory.{Mem, load32, fill, lt_int, sub32}
use emeralddb_src.Bson.{Bson}
use emeralddb_src.Msg.{
  Buffer, put_header, message_len, build_insert, build_query, build_delete, op_disconnect,
  op_snapshot,
}
use emeralddb_src.Socket.{Select, Received, Taken, recv, send, is_timeout}
use emeralddb_src.Client.{
  query_invalid_argument, insert_invalid_argument, delete_invalid_argument, invalid_record,
  recv_data_length_error, sock_connect_failed, sock_not_connect, sock_remote_closed,
  sock_send_failed, msg_build_failed, error_text,
}

-- RECV_BUF_SIZE and SEND_BUF_SIZE
abbrev pub recv_buf_size : ℕ
recv_buf_size = 4096

abbrev pub send_buf_size : ℕ
send_buf_size = 4096

-- What the system answers to one call of `recv`.
pub record Receipt : Type 0 where
  pub selects : List Select
  pub answers : List Received

-- What the system answers during one command: to the two calls of isConnected, to realloc, to the call of `send`,
-- and to those of `recv` for the length and for the rest.
pub record Answers : Type 0 where
  pub connected : Bool
  pub still_connected : Bool
  pub realloc : Option ℕ
  pub send_selects : List Select
  pub sends : List Taken
  pub lengths : List Receipt
  pub bodies : List Receipt

-- The return code, the memory, what was sent, the error text printed, and the object printed.
pub record Executed (O : Type 0) : Type 0 where
  pub code : ℕ
  pub mem : Mem
  pub sent : List ℕ
  pub said : Option String
  pub shown : Option O

-- The loops of `recvReply`: recv until it does not time out.
unfoldable pub recv_patiently : List Receipt → Mem → ℕ → ℕ → Option (Rc × Mem)
recv_patiently [] m p len = none
recv_patiently (t ∷ rest) m p len = elim (recv t.selects t.answers m p len) [
  | none ↦ none
  | some (rc, m') ↦ elim (is_timeout rc) [
    | true ↦ recv_patiently rest m' p len
    | false ↦ some (rc, m')
  ]
]

abbrev pub is_network_close : Rc → Bool
is_network_close network_close = true
is_network_close _ = false

-- The return code of `recvReply`, the error text and the memory
abbrev pub Reply : Type 0
Reply = ℕ × Option String × Mem

-- return getError (code)
abbrev pub refuses : ℕ → Mem → Reply
refuses code m = (code, error_text code, m)

-- `recvReply` from the second loop on
unfoldable pub recv_body : List Receipt → Mem → ℕ → Option Reply
recv_body bodies m r = elim (recv_patiently bodies m (r + 4) (sub32 (load32 m r) 4)) [
  | none ↦ none
  | some (rc, m') ↦
      if is_network_close rc
      then some (refuses sock_remote_closed m')
      else some (rc_word rc, none, m')
]

-- `recvReply` from the test of the length on
unfoldable pub use_length : List Receipt → Mem → ℕ → Option Reply
use_length bodies m r =
    if lt_int recv_buf_size (load32 m r)
    then some (refuses recv_data_length_error m)
    else recv_body bodies m r

-- `recvReply`, to the buffer at `r`
unfoldable pub recv_reply : Answers → Mem → ℕ → Option Reply
recv_reply a m r =
    let clean = fill m r 0 recv_buf_size in
    if not a.still_connected
    then some (refuses sock_not_connect clean)
    else elim (recv_patiently a.lengths clean r 4) [
      | none ↦ none
      | some (rc, m') ↦
          if is_network_close rc
          then some (refuses sock_remote_closed m')
          else use_length a.bodies m' r
    ]

-- The return code of `sendOrder`, the error text, the memory and what was sent
abbrev pub Order : Type 0
Order = ℕ × Option String × Mem × List ℕ

-- `sendOrder` of an object, from the result of `send` on
unfoldable pub use_sent : Mem → Option (Rc × List ℕ) → Option Order
use_sent m none = none
use_sent m (some (rc, out)) =
    if is_error rc
    then some (sock_send_failed, error_text sock_send_failed, m, out)
    else some (rc_word rc, none, m, out)

-- `sendOrder` of an object, from the result of `onMsgBuild` on
unfoldable pub send_built : Answers → Rc × Buffer → Option Order
send_built a (rc, b) =
    if is_error rc
    then some (msg_build_failed, error_text msg_build_failed, b.mem, [])
    else use_sent b.mem (send a.send_selects a.sends b.mem b.start (message_len b.mem b.start))

-- `sendOrder` of an operation code, from the buffer at `s`
unfoldable pub send_code : Answers → Mem → ℕ → ℕ → Option Order
send_code a m s op =
    let m' = put_header (fill m s 0 send_buf_size) s 8 op in
    elim (send a.send_selects a.sends m' s (message_len m' s)) [
      | none ↦ none
      | some (rc, out) ↦ some (rc_word rc, none, m', out)
    ]

-- `connect` of oss/ossSocket.cpp, over whether connect, getsockname and getpeername succeed
unfoldable pub connect_socket : Bool → Bool → Bool → Rc
connect_socket connects name_known peer_known =
    if not connects
    then network
    else if not name_known
    then network
    else if not peer_known
    then network
    else ok

-- `ConnectCommand::execute`, `none` where an argument is missing
unfoldable pub execute_connect : Bool → Bool → Bool → List (List ℕ) → Option (ℕ × Option String)
execute_connect connects name_known peer_known (address ∷ port ∷ rest) =
    if is_error (connect_socket connects name_known peer_known)
    then some (sock_connect_failed, error_text sock_connect_failed)
    else some (0, none)
execute_connect connects name_known peer_known _ = none

module _ (bson : Bson) (fromjson : List ℕ → Option bson.Obj) where
  open bson use {Obj, obj_at}

  -- `sendOrder` of the object that a text describes, from the buffer at `s`; fromjson throws at `none`.
  unfoldable pub send_order :
      (Option ℕ → Buffer → Obj → Rc × Buffer) → Answers → Mem → ℕ → List ℕ → Option Order
  send_order build a m s json = elim (fromjson json) [
    | none ↦ some (invalid_record, error_text invalid_record, m, [])
    | some o ↦
        let b : Buffer = record {
          mem = fill m s 0 send_buf_size;
          start = s;
          size = send_buf_size;
        } in
        send_built a (build a.realloc b o)
  ]

  -- `handleReply` of InsertCommand and of DeleteCommand: the return code and the object shown
  unfoldable pub handle_code : Mem → ℕ → ℕ × Option Obj
  handle_code m r = (load32 m (r + 8), none)

  -- `handleReply` of QueryCommand
  unfoldable pub handle_query : Mem → ℕ → ℕ × Option Obj
  handle_query m r =
      let code = load32 m (r + 8) in
      if not (code == 0)
      then (code, none)
      else if not (load32 m (r + 12) == 0)
      then (code, some (obj_at m (r + 16)))
      else (code, none)

  -- `handleReply` of SnapshotCommand
  unfoldable pub handle_snapshot : Mem → ℕ → ℕ × Option Obj
  handle_snapshot m r =
      let code = load32 m (r + 8) in
      if not (code == 0) then (code, none) else (code, some (obj_at m (r + 16)))

  -- The command ends.
  abbrev pub ends : ℕ → Mem → List ℕ → Option String → Option Obj → Option (Executed Obj)
  ends code m out said shown =
      some (record { code = code; mem = m; sent = out; said = said; shown = shown })

  -- `execute` after recvReply
  unfoldable pub use_reply : (Mem → ℕ → ℕ × Option Obj) → ℕ → List ℕ → Reply → Option (Executed Obj)
  use_reply handle r out (code, said, m) =
      let (result, shown) = handle m r in
      if not (code == 0)
      then ends code m out said none
      else ends result m out (error_text result) shown

  -- `execute` after sendOrder
  unfoldable pub use_order :
      (Mem → ℕ → ℕ × Option Obj) → Answers → ℕ → Order → Option (Executed Obj)
  use_order handle a r (code, said, m, out) =
      if not (code == 0)
      then ends code m out said none
      else elim (recv_reply a m r) [ none ↦ none | some reply ↦ use_reply handle r out reply ]

  -- `execute` of a command with an object, whose buffers are at `s` and `r`
  unfoldable pub execute_object :
      (Option ℕ → Buffer → Obj → Rc × Buffer)
      → (Mem → ℕ → ℕ × Option Obj)
      → ℕ
      → Answers
      → Mem
      → ℕ
      → ℕ
      → List (List ℕ)
      → Option (Executed Obj)
  execute_object build handle invalid a m s r [] = ends invalid m [] (error_text invalid) none
  execute_object build handle invalid a m s r (json ∷ rest) =
      if not a.connected
      then ends sock_not_connect m [] (error_text sock_not_connect) none
      else elim (send_order build a m s json) [
        | none ↦ none
        | some order ↦ use_order handle a r order
      ]

  -- `InsertCommand::execute`
  unfoldable pub execute_insert : Answers → Mem → ℕ → ℕ → List (List ℕ) → Option (Executed Obj)
  execute_insert = execute_object (build_insert bson) handle_code insert_invalid_argument

  -- `QueryCommand::execute`
  unfoldable pub execute_query : Answers → Mem → ℕ → ℕ → List (List ℕ) → Option (Executed Obj)
  execute_query = execute_object (build_query bson) handle_query query_invalid_argument

  -- `DeleteCommand::execute`
  unfoldable pub execute_delete : Answers → Mem → ℕ → ℕ → List (List ℕ) → Option (Executed Obj)
  execute_delete = execute_object (build_delete bson) handle_code delete_invalid_argument

  -- `SnapshotCommand::execute`
  unfoldable pub execute_snapshot : Answers → Mem → ℕ → ℕ → Option (Executed Obj)
  execute_snapshot a m s r =
      if not a.connected
      then ends sock_not_connect m [] (error_text sock_not_connect) none
      else elim (send_code a m s op_snapshot) [
        | none ↦ none
        | some order ↦ use_order handle_snapshot a r order
      ]

  -- `QuitCommand::execute`, and whether the shell ends
  unfoldable pub execute_quit : Answers → Mem → ℕ → Option (Bool × Executed Obj)
  execute_quit a m s =
      let refused : Executed Obj = record {
        code = sock_not_connect;
        mem = m;
        sent = [];
        said = error_text sock_not_connect;
        shown = none;
      } in
      if not a.connected then some (false, refused) else elim (send_code a m s op_disconnect) [
        | none ↦ none
        | some (code, said, m', out) ↦
            some (true, record { code = 0; mem = m'; sent = out; said = none; shown = none })
      ]
