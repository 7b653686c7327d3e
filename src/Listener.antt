-- ===== src/Listener.antt =====
-- pmd/pmdTcpListener.cpp: pmdTcpListenerEntryPoint, which starts an EDU for each client that connects. What the
-- sockets, the other threads and the state of the database do is an argument; `none` is a listener that has
-- not returned after them.
pub mod Port
pub mod Traced
pub mod Returns
use emeralddb_src.Base.{
  ℕ, ◌+◌, ◌-◌, ◌*◌, ◌%◌, Bool, true, false, not, ◌&&◌, List, [], ◌∷◌, ◌++◌, Option, none, some, leb,
  if◌then◌else◌,
}
use emeralddb_src.Core.{Rc, ok, is_error}
use emeralddb_src.Edu.Block.{agent}
use emeralddb_src.Edu.Manager.{Manager, activate_edu, wait_edu}
use emeralddb_src.Edu.Pool.{start_edu}

-- PMD_TCPLISTENER_RETRY
abbrev pub tcp_listener_retry : ℕ
tcp_listener_retry = 5

-- The loop over the characters of the service name, with the port in an int
unfoldable pub port_from : ℕ → List ℕ → ℕ
port_from port [] = port
port_from port (c ∷ name) =
    port_from (if leb b'0' c && leb c b'9' then (port * 10 + (c - b'0')) % 4294967296 else port)
      name

-- The port of a service name
unfoldable pub port_of : List ℕ → ℕ
port_of name = port_from 0 name

-- What `accept` comes to: EDB_TIMEOUT, a socket, or another error.
pub data Accepted : Type 0 where
  nobody accept_failed : Accepted
  connects : ℕ → Accepted

-- A round of the loop that listens: EDB_IS_DB_DOWN at its start and after an error, what the other threads do to the
-- manager meanwhile, and what startEDU gets from the system.
pub record Arrival : Type 0 where
  pub is_down : Bool
  pub others : Manager → Manager
  pub accepted : Accepted
  pub down_then : Bool
  pub allocated : Bool
  pub thread_made : Bool

-- What becomes of a client: an EDU gets its socket, or the socket is closed.
pub data Fate : Type 0 where
  hands : ℕ → ℕ → Fate
  closes : ℕ → Rc → Fate

-- The end of the loop that listens: `done`, or on to waitEDU.
pub data Exit : Type 0 where
  finishes leaves : Exit

-- startEDU for a client, with its result
unfoldable pub use_started : ℕ → Rc × Option ℕ × Manager → List Fate × Manager
use_started socket (rc, edu, m) =
    if is_error rc
    then (closes socket rc ∷ [], m)
    else elim edu [ none ↦ ([], m) | some id ↦ (hands socket id ∷ [], m) ]

-- The loop that listens: its end, what becomes of the clients, and the manager
unfoldable pub listen : List Arrival → Manager → Option (Exit × List Fate × Manager)
listen [] m = none
listen (a ∷ rest) m =
    if a.is_down
    then some (leaves, [], m)
    else let m1 = a.others m in
      elim a.accepted [
        | nobody ↦ listen rest m1
        | accept_failed ↦ some (if a.down_then then finishes else leaves, [], m1)
        | connects s ↦
            let (fate, m2) = use_started s (start_edu a.allocated a.thread_made agent s m1) in
            elim (listen rest m2) [
              | none ↦ none
              | some (exit, fates, m3) ↦ some (exit, fate ++ fates, m3)
            ]
      ]

-- A round of the loop over the retries: EDB_IS_DB_DOWN, the results of initSocket and of bind_listen, and the
-- rounds that listen.
pub record Try : Type 0 where
  pub is_down : Bool
  pub init : Rc
  pub bind : Rc
  pub arrivals : List Arrival

-- The result of pmdTcpListenerEntryPoint, what becomes of the clients, and the manager
abbrev pub Listened : Type 0
Listened = Rc × List Fate × Manager

-- A round from waitEDU on
unfoldable pub after_listen :
    ℕ → (Manager → Option Listened) → Exit × List Fate × Manager → Option Listened
after_listen id again (finishes, fates, m) = some (ok, fates, m)
after_listen id again (leaves, fates, m) =
    let (rc, m') = wait_edu id m in
    if is_error rc
    then some (rc, fates, m')
    else elim (again m') [ none ↦ none | some (rc', later, m'') ↦ some (rc', fates ++ later, m'') ]

-- A round from activateEDU on
unfoldable pub serve_clients : ℕ → (Manager → Option Listened) → Try → Manager → Option Listened
serve_clients id again t m =
    let (rc, m') = activate_edu id m in
    if is_error rc
    then some (rc, [], m')
    else elim (listen t.arrivals m') [ none ↦ none | some result ↦ after_listen id again result ]

-- The loop over the retries of the listener with the given id
unfoldable pub tcp_listener_entry_point : ℕ → List Try → ℕ → Manager → Option Listened
tcp_listener_entry_point id [] retry m =
    if leb retry tcp_listener_retry then none else some (ok, [], m)
tcp_listener_entry_point id (t ∷ ts) retry m =
    let served = serve_clients id (tcp_listener_entry_point id ts (retry + 1)) t m in
    if not (leb retry tcp_listener_retry && not t.is_down)
    then some (ok, [], m)
    else if is_error t.init
    then some (t.init, [], m)
    else if is_error t.bind
    then some (t.bind, [], m)
    else served
