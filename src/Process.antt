-- ===== src/Process.antt =====
-- pmd/pmdMain.cpp, pmd/pmd.cpp and include/pmd.hpp: the status of the database, the signals that shut it down, and
-- the main thread. What the options, the record store and the thread pool return is an argument. Of the control
-- block the status and the size of the pool are kept; its paths and its service name are not.
use emeralddb_src.Base.{
  ◌⊎◌, ℕ, ◌≡◌, ◌≤◌, ◌<◌, refl, arith, ◌&&◌, Bool, true, false, List, [], ◌∷◌, Option, none, some,
  ltb, leb, ◌==◌, if◌then◌else◌, get_or, if_cases, inl, inr,
}
use emeralddb_src.Core.{Rc, ok, is_error}

-- EDB_DB_STATUS
pub data DbStatus : Type 0 where
  db_normal db_shutdown db_panic : DbStatus

-- EDB_IS_DB_DOWN
abbrev pub is_db_down : DbStatus → Bool
is_db_down db_normal = false
is_db_down db_shutdown = true
is_db_down db_panic = true

-- EDB_KRCB
pub record Krcb : Type 0 where
  pub status : DbStatus
  pub max_pool : ℕ

-- EDB_KRCB ()
abbrev pub new_krcb : Krcb
new_krcb = record { status = db_normal; max_pool = 0 }

-- EDB_KRCB::init, with getMaxPool of the options and the result of rtnInitialize
unfoldable pub init_krcb : ℕ → Rc → Krcb → Rc × Krcb
init_krcb pool rtn_rc k = (rtn_rc, record { status = db_normal; max_pool = pool })

abbrev pub pmd_max_signals : ℕ
pmd_max_signals = 64

-- The members `handle` of signalHandleMap, up to the last that is 1; those behind are 0.
abbrev pub signal_handle_map : List ℕ
signal_handle_map =
    0 ∷ 1 ∷ 1 ∷ 1 ∷ 1 ∷ 1 ∷ 1 ∷ 1 ∷ 1 ∷ 1 ∷ 0 ∷ 1 ∷ 0 ∷ 1 ∷ 0 ∷ 1 ∷ 0 ∷ 0 ∷ 0 ∷ 1 ∷ 0 ∷ 0 ∷ 0 ∷ 0
    ∷ 0 ∷ 0 ∷ 0 ∷ 0 ∷ 0 ∷ 0 ∷ 1 ∷ 1 ∷ []

-- signalHandleMap [ n ].handle
unfoldable pub signal_handle : ℕ → ℕ
signal_handle n = get_or signal_handle_map n 0

-- pmdSignalHandler
unfoldable pub pmd_signal_handler : ℕ → Krcb → Krcb
pmd_signal_handler n k =
    if ltb 0 n && leb n pmd_max_signals
    then if signal_handle n == 0 then k else record k { status = db_shutdown }
    else k

-- The signals that come in while the main thread sleeps
unfoldable pub take_signals : List ℕ → Krcb → Krcb
take_signals [] k = k
take_signals (n ∷ rest) k = take_signals rest (pmd_signal_handler n k)

-- The loop of pmdMasterThreadMain over its seconds, with the signals of each
unfoldable pub wait_for_shutdown : List (List ℕ) → Krcb → Option Krcb
wait_for_shutdown [] k = if is_db_down k.status then some k else none
wait_for_shutdown (signals ∷ rest) k =
    let later = wait_for_shutdown rest (take_signals signals k) in
    if is_db_down k.status then some k else later

-- pmdResolveArguments, with the result of `init` of the options
unfoldable pub pmd_resolve_arguments : Rc → ℕ → Rc → Krcb → Rc × Krcb
pmd_resolve_arguments options_rc pool rtn_rc k =
    if is_error options_rc then (options_rc, k) else init_krcb pool rtn_rc k

-- pmdMasterThreadMain, once the signal handler is set. The result of startEDU is not looked at.
unfoldable pub pmd_master_thread_main : Rc → ℕ → Rc → List (List ℕ) → Krcb → Option (Rc × Krcb)
pmd_master_thread_main options_rc pool rtn_rc seconds k =
    let (rc, k') = pmd_resolve_arguments options_rc pool rtn_rc k in
    let waited = wait_for_shutdown seconds k' in
    if is_error rc then some (rc, k') else elim waited [ none ↦ none | some k'' ↦ some (ok, k'') ]

-- The database is down.
abbrev pub IsDown : Krcb → Type 0
IsDown k = is_db_down k.status ≡ true

-- A signal that shuts the database down
abbrev pub Stops : ℕ → Type 0
Stops n = (0 < n) × (n ≤ pmd_max_signals) × ((signal_handle n == 0) ≡ false)

-- One of the signals stops.
abbrev pub SomeStops : List ℕ → Type 0
SomeStops [] = ⊥
SomeStops (n ∷ rest) = Stops n ⊎ SomeStops rest

pmd_signal_handler_stays : (n : ℕ) (k : Krcb) → IsDown k → IsDown (pmd_signal_handler n k)
unfolding pmd_signal_handler
pmd_signal_handler_stays n k d =
    if_cases IsDown (ltb 0 n && leb n pmd_max_signals) _ _
      (λ e. if_cases IsDown (signal_handle n == 0) _ _ (λ z. d) (λ z. refl)) (λ e. d)

pmd_signal_handler-IsDown : (n : ℕ) (k : Krcb) → Stops n → IsDown (pmd_signal_handler n k)
unfolding pmd_signal_handler
pmd_signal_handler-IsDown n k s =
    if_cases IsDown (ltb 0 n && leb n pmd_max_signals) _ _
      (λ e.
        if_cases IsDown (signal_handle n == 0) _ _ (λ z. absurd (grind (arith, s.2))) (λ z. refl))
      (λ e. absurd (ground (arith, s.0, s.1)))

take_signals_stay : (ns : List ℕ) (k : Krcb) → IsDown k → IsDown (take_signals ns k)
unfolding take_signals
take_signals_stay [] k d = d
take_signals_stay (n ∷ rest) k d =
    take_signals_stay rest (pmd_signal_handler n k) (pmd_signal_handler_stays n k d)

take_signals-IsDown : (ns : List ℕ) (k : Krcb) → SomeStops ns → IsDown (take_signals ns k)
unfolding take_signals
take_signals-IsDown [] k s = elim s [ ]
take_signals-IsDown (n ∷ rest) k (inl s) =
    take_signals_stay rest (pmd_signal_handler n k) (pmd_signal_handler-IsDown n k s)
take_signals-IsDown (n ∷ rest) k (inr s) = take_signals-IsDown rest (pmd_signal_handler n k) s

-- The main thread has returned.
abbrev pub HasStopped : Option Krcb → Type 0
HasStopped none = ⊥
HasStopped (some k) = is_db_down k.status ≡ true

wait_for_shutdown_now :
    (seconds : List (List ℕ)) (k : Krcb) → IsDown k → HasStopped (wait_for_shutdown seconds k)
unfolding wait_for_shutdown
wait_for_shutdown_now [] k d =
    if_cases HasStopped (is_db_down k.status) _ _ (λ e. e) (λ e. absurd (grind arith))
wait_for_shutdown_now (ns ∷ rest) k d =
    if_cases HasStopped (is_db_down k.status) _ _ (λ e. e) (λ e. absurd (grind arith))

-- A second with a signal that stops
abbrev pub OneStops : List (List ℕ) → Type 0
OneStops [] = ⊥
OneStops (ns ∷ rest) = SomeStops ns ⊎ OneStops rest

wait_for_shutdown-HasStopped :
    (seconds : List (List ℕ)) (k : Krcb)
    → OneStops seconds
    → HasStopped (wait_for_shutdown seconds k)
unfolding wait_for_shutdown
wait_for_shutdown-HasStopped [] k s = elim s [ ]
wait_for_shutdown-HasStopped (ns ∷ rest) k (inl s) =
    if_cases HasStopped (is_db_down k.status) _ _ (λ e. e)
      (λ e. wait_for_shutdown_now rest (take_signals ns k) (take_signals-IsDown ns k s))
wait_for_shutdown-HasStopped (ns ∷ rest) k (inr s) =
    if_cases HasStopped (is_db_down k.status) _ _ (λ e. e)
      (λ e. wait_for_shutdown-HasStopped rest (take_signals ns k) s)

-- The main thread has returned EDB_OK, with the database down.
abbrev pub HasReturned : Option (Rc × Krcb) → Type 0
HasReturned none = ⊥
HasReturned (some (rc, k)) = (rc ≡ ok) × (is_db_down k.status ≡ true)

stopped-HasReturned :
    (o : Option Krcb) → HasStopped o → HasReturned (elim o [ none ↦ none | some k ↦ some (ok, k) ])
stopped-HasReturned none s = s
stopped-HasReturned (some k) s = (refl, s)

-- pmdMasterThreadMain returns EDB_OK with the database down, if the options and the record store are set up and a
-- signal that shuts down comes in some second after that.
pub pmd_master_thread_main-HasReturned :
    (pool : ℕ) (seconds : List (List ℕ)) (k : Krcb)
    → OneStops seconds
    → HasReturned (pmd_master_thread_main ok pool ok seconds k)
unfolding pmd_master_thread_main pmd_resolve_arguments init_krcb
pmd_master_thread_main-HasReturned pool seconds k s =
    stopped-HasReturned (wait_for_shutdown seconds (record { status = db_normal; max_pool = pool }))
      (wait_for_shutdown-HasStopped seconds (record { status = db_normal; max_pool = pool }) s)
