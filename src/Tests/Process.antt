-- ===== src/Tests/Process.antt =====
-- The main thread, which a signal stops.
use emeralddb_src.Base.{ℕ, ◌≡◌, refl, List, [], ◌∷◌, some, length}
use emeralddb_src.Core.{ok}
use emeralddb_src.Process.{
  new_krcb, db_shutdown, pmd_master_thread_main, pmd_resolve_arguments, init_krcb,
  wait_for_shutdown, take_signals, pmd_signal_handler, signal_handle_map, signal_handle,
}

-- SIGUSR1 in the first second, SIGTERM in the third
abbrev seconds : List (List ℕ)
seconds = (10 ∷ []) ∷ [] ∷ (15 ∷ []) ∷ []

stopped :
    pmd_master_thread_main ok 5 ok seconds new_krcb
    ≡ some (ok, record { status = db_shutdown; max_pool = 5 })
unfolding pmd_master_thread_main pmd_resolve_arguments init_krcb wait_for_shutdown take_signals
    pmd_signal_handler signal_handle
stopped = refl

last_signals : length signal_handle_map ≡ 32
last_signals = refl

sigpwr : signal_handle 30 ≡ 1
unfolding signal_handle
sigpwr = refl

sigstop : signal_handle 19 ≡ 1
unfolding signal_handle
sigstop = refl

sigalrm : signal_handle 14 ≡ 0
unfolding signal_handle
sigalrm = refl
