-- ===== src/Socket.antt =====
-- oss/ossSocket.cpp: `send` and `recv` of a socket, over what the system answers, and the loops
-- of pmd/pmdEDU.cpp that call them until the thread is forced. `none` is a call that has not returned after
-- the answers given. An int is the 32-bit word that holds it.
pub mod Recv
pub mod Send
pub mod Transfer
use emeralddb_src.Base.{
  ℕ, ◌+◌, ◌%◌, Bool, true, false, not, List, [], ◌∷◌, ◌++◌, Option, none, some, ltb, ◌==◌,
  if◌then◌else◌, length, zero, suc,
}
use emeralddb_src.Core.{Rc, ok, network, network_close, timeout, app_forced, is_error}
use emeralddb_src.Memory.{Mem, copy, lt_int, sub32}

-- One call of select: the time is over, a signal interrupts it, it fails, or it returns with the socket
-- set or not.
pub data Select : Type 0 where
  time_over interrupts fails is_set not_set : Select

-- One call of recv: some bytes, the end of the stream, EINTR, or another errno. With EAGAIN and
-- EWOULDBLOCK recv returns EDB_NETWORK, as with any other.
pub data Received : Type 0 where
  bytes : List ℕ → Received
  closed interrupted failed : Received

-- One call of send: the number of bytes it takes, or -1.
pub data Taken : Type 0 where
  takes : ℕ → Taken
  refused : Taken

-- The first loop of `send` and `recv`, EDB_OK once the socket is ready
unfoldable pub await : List Select → Option Rc
await [] = none
await (time_over ∷ rest) = some timeout
await (interrupts ∷ rest) = await rest
await (fails ∷ rest) = some network
await (is_set ∷ rest) = some ok
await (not_set ∷ rest) = await rest

-- MAX_RECV_RETRIES
abbrev pub max_recv_retries : ℕ
max_recv_retries = 5

-- The second loop of `recv`, without MSG_PEEK
unfoldable pub recv_loop : List Received → ℕ → Mem → ℕ → ℕ → Option (Rc × Mem)
recv_loop [] retries m p len = if not (lt_int 0 len) then some (ok, m) else none
recv_loop (bytes s ∷ rest) retries m p len =
    let later = recv_loop rest retries (copy m p s) (p + length s) (sub32 len (length s)) in
    if not (lt_int 0 len) then some (ok, m) else later
recv_loop (closed ∷ rest) retries m p len =
    if not (lt_int 0 len) then some (ok, m) else some (network_close, m)
recv_loop (interrupted ∷ rest) retries m p len =
    let later = recv_loop rest (retries + 1) m p len in
    if not (lt_int 0 len)
    then some (ok, m)
    else if ltb retries max_recv_retries
    then later
    else some (network, m)
recv_loop (failed ∷ rest) retries m p len =
    if not (lt_int 0 len) then some (ok, m) else some (network, m)

-- `recv` to `p`, without MSG_PEEK
unfoldable pub recv : List Select → List Received → Mem → ℕ → ℕ → Option (Rc × Mem)
recv selects answers m p len = if len == 0 then some (ok, m) else elim (await selects) [
  | none ↦ none
  | some rc ↦ if is_error rc then some (rc, m) else recv_loop answers 0 m p len
]

-- The `n` bytes from `p` on.
unfoldable pub read : Mem → ℕ → ℕ → List ℕ
read m p zero = []
read m p (suc n) = m p ∷ read m (p + 1) n

-- The second loop of `send`: what it returns, and the bytes that the system took
unfoldable pub send_loop : List Taken → Mem → ℕ → ℕ → Option (Rc × List ℕ)
send_loop [] m p len = if not (lt_int 0 len) then some (ok, []) else none
send_loop (takes n ∷ rest) m p len =
    let later = send_loop rest m (p + n) (sub32 len n) in
    if not (lt_int 0 len)
    then some (ok, [])
    else elim later [ none ↦ none | some (rc, out) ↦ some (rc, read m p n ++ out) ]
send_loop (refused ∷ rest) m p len =
    if not (lt_int 0 len) then some (ok, []) else some (network, [])

-- `send` of the bytes at `p`
unfoldable pub send : List Select → List Taken → Mem → ℕ → ℕ → Option (Rc × List ℕ)
send selects answers m p len = if len == 0 then some (ok, []) else elim (await selects) [
  | none ↦ none
  | some rc ↦ if is_error rc then some (rc, []) else send_loop answers m p len
]

-- A round of pmdRecv or pmdSend: whether the thread is forced, and what the system answers to the call.
pub record Attempt (A : Type 0) : Type 0 where
  pub is_forced : Bool
  pub selects : List Select
  pub answers : List A

abbrev pub is_timeout : Rc → Bool
is_timeout timeout = true
is_timeout _ = false

-- pmdRecv
unfoldable pub pmd_recv : List (Attempt Received) → Mem → ℕ → ℕ → Option (Rc × Mem)
pmd_recv [] m p len = none
pmd_recv (t ∷ rest) m p len =
    if t.is_forced then some (app_forced, m) else elim (recv t.selects t.answers m p len) [
      | none ↦ none
      | some (rc, m') ↦ elim (is_timeout rc) [
        | true ↦ pmd_recv rest m' p len
        | false ↦ some (rc, m')
      ]
    ]

-- pmdSend
unfoldable pub pmd_send : List (Attempt Taken) → Mem → ℕ → ℕ → Option (Rc × List ℕ)
pmd_send [] m p len = none
pmd_send (t ∷ rest) m p len =
    if t.is_forced then some (app_forced, []) else elim (send t.selects t.answers m p len) [
      | none ↦ none
      | some (rc, out) ↦ elim (is_timeout rc) [
        | true ↦ pmd_send rest m p len
        | false ↦ some (rc, out)
      ]
    ]
