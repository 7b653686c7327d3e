-- ===== src/Edu/Table.antt =====
-- The "EDU Status Transition Table" at the top of pmd/pmdEDUMgr.cpp, against the operations.
pub mod Listed
use emeralddb_src.Base.{
  ℕ, ◌≡◌, refl, ap, ◌⊎◌, inl, inr, Bool, true, false, Option, none, some, Option-cases,
}
use emeralddb_src.Core.{Rc, ok, sys, edu_inval_status}
use emeralddb_src.Edu.OrderedMap.{find}
use emeralddb_src.Edu.Block.{
  Block, EduStatus, agent, creating, running, waiting, idle, destroy, unknown_status, is_idle,
  set_status,
}
use emeralddb_src.Edu.Manager.{
  Manager, get_edu_by_id, wait_edu, activate_edu, deactivate_edu, destroy_edu, forget_thread,
}
use emeralddb_src.Edu.Invariant.{IsManager}
use emeralddb_src.Edu.Change.{Change, updates_run, wakes, rests, leaves_run, leaves_idle}

-- The rows of the table; a destroyed EDU is `none`.
pub data Row : Type 0 where
  row_activate row_wait row_deactivate row_destroy : Row

abbrev pub target : Row → Option EduStatus
target row_activate = some running
target row_wait = some waiting
target row_deactivate = some idle
target row_destroy = none

abbrev pub has_move : Row → EduStatus → Bool
has_move row_activate creating = true
has_move row_activate waiting = true
has_move row_activate idle = true
has_move row_wait running = true
has_move row_deactivate creating = true
has_move row_deactivate waiting = true
has_move row_destroy creating = true
has_move row_destroy waiting = true
has_move row_destroy idle = true
has_move _ _ = false

abbrev pub status_of : Option Block → Option EduStatus
status_of none = none
status_of (some b) = some b.status

-- waitEDU looks for the EDU in the run queue only.
abbrev pub IsMissing : Row → Manager → ℕ → Type 0
IsMissing row_wait m id = find id m.run_queue ≡ none
IsMissing _ m id = get_edu_by_id m id ≡ none

-- What an operation of a row of the table comes to: nothing changes, on success only if the EDU is where
-- the row takes it or pooled already, or the status of the EDU moves as the table allows.
pub data Outcome (row : Row) (m : Manager) (id : ℕ) : Rc × Manager → Type 0 where
  missing : IsMissing row m id → Outcome row m id (sys, m)
  refused :
      (b : Block)
      → get_edu_by_id m id ≡ some b
      → has_move row b.status ≡ false
      → (some b.status ≡ target row → ⊥)
      → Outcome row m id (edu_inval_status, m)
  moved :
      {b : Block} {c : Option Block} {m' : Manager}
      → Change m id b c m'
      → has_move row b.status ≡ true
      → status_of c ≡ target row
      → Outcome row m id (ok, m')
  there :
      (b : Block)
      → get_edu_by_id m id ≡ some b
      → some b.status ≡ target row
      → Outcome row m id (ok, m)
  astray :
      (b : Block)
      → find id m.idle_queue ≡ some b
      → is_idle b.status ≡ false
      → Outcome row m id (edu_inval_status, m)
  pooled :
      (b : Block) → row ≡ row_deactivate → find id m.idle_queue ≡ some b → Outcome row m id (ok, m)

module _ (m : Manager) (id : ℕ) (b : Block) where
  module _ (e : find id m.run_queue ≡ some b) where
    run_lookup : get_edu_by_id m id ≡ some b
    unfolding get_edu_by_id
    run_lookup = rw (e, get_edu_by_id) refl

    activate_run :
        find id m.idle_queue ≡ none
        → (s : EduStatus) → b.status ≡ s
        → is_idle s ≡ false
        → Outcome row_activate m id (activate_edu id m)
    unfolding activate_edu
    activate_run n creating s i =
        rw (n, e, s, activate_edu)
          (moved (updates_run b (set_status running b) e refl refl) (rw s refl) refl)
    activate_run n running s i = rw (n, e, s, activate_edu) (there b run_lookup (ap some s))
    activate_run n waiting s i =
        rw (n, e, s, activate_edu)
          (moved (updates_run b (set_status running b) e refl refl) (rw s refl) refl)
    activate_run n idle s i = cc
    activate_run n destroy s i =
        rw (n, e, s, activate_edu) (refused b run_lookup (rw s refl) (rw s λ e. cc))
    activate_run n unknown_status s i =
        rw (n, e, s, activate_edu) (refused b run_lookup (rw s refl) (rw s λ e. cc))

    wait_run : (s : EduStatus) → b.status ≡ s → Outcome row_wait m id (wait_edu id m)
    unfolding wait_edu
    wait_run creating s = rw (e, s, wait_edu) (refused b run_lookup (rw s refl) (rw s λ e. cc))
    wait_run running s =
        rw (e, s, wait_edu)
          (moved (updates_run b (set_status waiting b) e refl refl) (rw s refl) refl)
    wait_run waiting s = rw (e, s, wait_edu) (there b run_lookup (ap some s))
    wait_run idle s = rw (e, s, wait_edu) (refused b run_lookup (rw s refl) (rw s λ e. cc))
    wait_run destroy s = rw (e, s, wait_edu) (refused b run_lookup (rw s refl) (rw s λ e. cc))
    wait_run unknown_status s =
        rw (e, s, wait_edu) (refused b run_lookup (rw s refl) (rw s λ e. cc))

    deactivate_run :
        b.edu_type ≡ agent
        → (s : EduStatus) → b.status ≡ s
        → is_idle s ≡ false
        → Outcome row_deactivate m id (deactivate_edu id m)
    unfolding deactivate_edu
    deactivate_run t creating s i =
        rw (e, s, deactivate_edu)
          (moved (rests b (set_status idle b) e refl t refl) (rw s refl) refl)
    deactivate_run t running s i =
        rw (e, s, deactivate_edu) (refused b run_lookup (rw s refl) (rw s λ e. cc))
    deactivate_run t waiting s i =
        rw (e, s, deactivate_edu)
          (moved (rests b (set_status idle b) e refl t refl) (rw s refl) refl)
    deactivate_run t idle s i = cc
    deactivate_run t destroy s i =
        rw (e, s, deactivate_edu) (refused b run_lookup (rw s refl) (rw s λ e. cc))
    deactivate_run t unknown_status s i =
        rw (e, s, deactivate_edu) (refused b run_lookup (rw s refl) (rw s λ e. cc))

    destroy_run :
        (s : EduStatus)
        → b.status ≡ s
        → is_idle s ≡ false
        → Outcome row_destroy m id (destroy_edu id m)
    unfolding destroy_edu
    destroy_run creating s i =
        rw (e, s, destroy_edu)
          (moved (leaves_run b (forget_thread id m.tid_eduid_map) e) (rw s refl) refl)
    destroy_run running s i =
        rw (e, s, destroy_edu) (refused b run_lookup (rw s refl) (rw s λ e. cc))
    destroy_run waiting s i =
        rw (e, s, destroy_edu)
          (moved (leaves_run b (forget_thread id m.tid_eduid_map) e) (rw s refl) refl)
    destroy_run idle s i = cc
    destroy_run destroy s i =
        rw (e, s, destroy_edu) (refused b run_lookup (rw s refl) (rw s λ e. cc))
    destroy_run unknown_status s i =
        rw (e, s, destroy_edu) (refused b run_lookup (rw s refl) (rw s λ e. cc))

  module _ (n : find id m.run_queue ≡ none) (e : find id m.idle_queue ≡ some b) where
    pub idle_lookup : get_edu_by_id m id ≡ some b
    unfolding get_edu_by_id
    idle_lookup = rw (n, e, get_edu_by_id) refl

    activate_idle :
        (b.status ≡ idle) ⊎ (b.status ≡ running) ⊎ (b.status ≡ waiting)
        → Outcome row_activate m id (activate_edu id m)
    unfolding activate_edu
    activate_idle (inl s) =
        rw (e, s, activate_edu)
          (moved (wakes b (set_status running b) e refl refl) (rw s refl) refl)
    activate_idle (inr (inl s)) = rw (e, s, activate_edu) (there b idle_lookup (ap some s))
    activate_idle (inr (inr s)) = rw (e, s, activate_edu) (astray b e (rw s refl))

    destroy_idle :
        (b.status ≡ idle) ⊎ (b.status ≡ running) ⊎ (b.status ≡ waiting)
        → Outcome row_destroy m id (destroy_edu id m)
    unfolding destroy_edu
    destroy_idle (inl s) =
        rw (n, e, s, destroy_edu)
          (moved (leaves_idle b (forget_thread id m.tid_eduid_map) e) (rw s refl) refl)
    destroy_idle (inr (inl s)) = rw (n, e, s, destroy_edu) (astray b e (rw s refl))
    destroy_idle (inr (inr s)) = rw (n, e, s, destroy_edu) (astray b e (rw s refl))

module _ (m : Manager) (valid : IsManager m) (id : ℕ) where
  nowhere : find id m.run_queue ≡ none → find id m.idle_queue ≡ none → get_edu_by_id m id ≡ none
  unfolding get_edu_by_id
  nowhere n k = rw (n, k, get_edu_by_id) refl

  -- On a well-formed manager, `activateEDU` comes to an end that `Outcome` lists for the row to RUNNING.
  pub activate_edu-Outcome : Outcome row_activate m id (activate_edu id m)
  unfolding activate_edu
  activate_edu-Outcome = elim (Option-cases (find id m.run_queue)) [
    | inl n ↦ elim (Option-cases (find id m.idle_queue)) [
      | inl k ↦ rw (k, n, activate_edu) (missing (nowhere n k))
      | inr (b, e) ↦ activate_idle m id b n e (valid.idles id b e).resting
    ]
    | inr (b, e) ↦
        activate_run m id b e (elim (valid.apart id) [ inl k ↦ cc | inr k ↦ k ]) b.status refl
          (valid.runs id b e).not_idle
  ]

  -- On a well-formed manager, `waitEDU` comes to an end that `Outcome` lists for the row to WAITING.
  pub wait_edu-Outcome : Outcome row_wait m id (wait_edu id m)
  unfolding wait_edu
  wait_edu-Outcome = elim (Option-cases (find id m.run_queue)) [
    | inl n ↦ rw (n, wait_edu) (missing n)
    | inr (b, e) ↦ wait_run m id b e b.status refl
  ]

  -- On a well-formed manager, `_deactivateEDU` of an EDU that is an agent, if it is there, comes to an end
  -- that `Outcome` lists for the row to IDLE.
  pub deactivate_edu-Outcome :
      ((b : Block) → get_edu_by_id m id ≡ some b → b.edu_type ≡ agent)
      → Outcome row_deactivate m id (deactivate_edu id m)
  unfolding deactivate_edu
  deactivate_edu-Outcome t = elim (Option-cases (find id m.run_queue)) [
    | inl n ↦ elim (Option-cases (find id m.idle_queue)) [
      | inl k ↦ rw (n, k, deactivate_edu) (missing (nowhere n k))
      | inr (b, e) ↦ rw (n, e, deactivate_edu) (pooled b refl e)
    ]
    | inr (b, e) ↦
        deactivate_run m id b e (t b (run_lookup m id b e)) b.status refl
          (valid.runs id b e).not_idle
  ]

  -- On a well-formed manager, `_destroyEDU` comes to an end that `Outcome` lists for the row to DESTROY.
  pub destroy_edu-Outcome : Outcome row_destroy m id (destroy_edu id m)
  unfolding destroy_edu
  destroy_edu-Outcome = elim (Option-cases (find id m.run_queue)) [
    | inl n ↦ elim (Option-cases (find id m.idle_queue)) [
      | inl k ↦ rw (n, k, destroy_edu) (missing (nowhere n k))
      | inr (b, e) ↦ destroy_idle m id b n e (valid.idles id b e).resting
    ]
    | inr (b, e) ↦ destroy_run m id b e b.status refl (valid.runs id b e).not_idle
  ]
