-- ===== src/Edu/Manager.antt =====
-- pmd/pmdEDUMgr.cpp: the manager of the threads. Each function below runs under `_mutex`, so it is one
-- step on the state. A control block is in one map at most, so the pointer to it is modelled by the block.
use emeralddb_src.Base.{
  ℕ, ◌+◌, ◌%◌, Bool, false, not, ◌&&◌, List, [], ◌∷◌, Option, none, some, ◌==◌, if◌then◌else◌,
  length,
}
use emeralddb_src.Core.{Rc, ok, sys, timeout, edu_inval_status}
use emeralddb_src.Edu.OrderedMap.{OrderedMap, find, set, erase}
use emeralddb_src.Edu.Block.{
  Block, Event, running, waiting, idle, set_status, post_event, wait_event, is_waiting, is_creating,
  is_running, is_idle,
}

pub record Manager : Type 0 where
  pub run_queue : OrderedMap Block
  pub idle_queue : OrderedMap Block
  pub tid_eduid_map : OrderedMap ℕ
  pub next_id : ℕ
  pub system_edus : OrderedMap ℕ
  pub is_quiesced : Bool
  pub is_destroyed : Bool

-- pmdEDUMgr ()
abbrev pub new_manager : Manager
new_manager = record {
  run_queue = [];
  idle_queue = [];
  tid_eduid_map = [];
  next_id = 1;
  system_edus = [];
  is_quiesced = false;
  is_destroyed = false;
}

-- size (), at most 2 ^ 32 - 1 of each queue
abbrev pub size : Manager → ℕ
size m = (length m.run_queue + length m.idle_queue) % 4294967296

-- getEDUByID
unfoldable pub get_edu_by_id : Manager → ℕ → Option Block
get_edu_by_id m id = elim (find id m.run_queue) [ none ↦ find id m.idle_queue | some b ↦ some b ]

-- getEDU ( tid )
unfoldable pub get_edu : Manager → ℕ → Option Block
get_edu m tid = elim (find tid m.tid_eduid_map) [ none ↦ none | some id ↦ get_edu_by_id m id ]

-- setEDU
abbrev pub set_edu : ℕ → ℕ → Manager → Manager
set_edu tid id m = record m { tid_eduid_map = set tid id m.tid_eduid_map }

-- The block of `id` replaced where it stands.
unfoldable pub set_block : ℕ → Block → Manager → Manager
set_block id b m = elim (find id m.run_queue) [
  | none ↦ record m { idle_queue = set id b m.idle_queue }
  | some _ ↦ record m { run_queue = set id b m.run_queue }
]

-- postEDUPost
unfoldable pub post_edu_post : ℕ → Event → Manager → Rc × Manager
post_edu_post id e m = elim (get_edu_by_id m id) [
  | none ↦ (sys, m)
  | some b ↦ (ok, set_block id (post_event e b) m)
]

-- waitEDUPost
unfoldable pub wait_edu_post : ℕ → List Event → Manager → Rc × Option Event × Manager
wait_edu_post id arrived m = elim (get_edu_by_id m id) [
  | none ↦ (sys, none, m)
  | some b ↦
      let (event, b') = wait_event arrived b in
      (elim event [ none ↦ timeout | some _ ↦ ok ], event, set_block id b' m)
]

-- waitEDU
unfoldable pub wait_edu : ℕ → Manager → Rc × Manager
wait_edu id m = elim (find id m.run_queue) [
  | none ↦ (sys, m)
  | some b ↦
      if is_waiting b.status
      then (ok, m)
      else if not (is_running b.status)
      then (edu_inval_status, m)
      else (ok, record m { run_queue = set id (set_status waiting b) m.run_queue })
]

-- activateEDU
unfoldable pub activate_edu : ℕ → Manager → Rc × Manager
activate_edu id m = elim (find id m.idle_queue) [
  | none ↦ elim (find id m.run_queue) [
    | none ↦ (sys, m)
    | some b ↦
        if is_running b.status
        then (ok, m)
        else if not (is_waiting b.status) && not (is_creating b.status)
        then (edu_inval_status, m)
        else (ok, record m { run_queue = set id (set_status running b) m.run_queue })
  ]
  | some b ↦
      if is_running b.status
      then (ok, m)
      else if not (is_idle b.status)
      then (edu_inval_status, m)
      else (
        ok,
        record m {
          idle_queue = erase id m.idle_queue;
          run_queue = set id (set_status running b) m.run_queue;
        },
      )
]

-- _deactivateEDU
unfoldable pub deactivate_edu : ℕ → Manager → Rc × Manager
deactivate_edu id m = elim (find id m.run_queue) [
  | none ↦ elim (find id m.idle_queue) [ none ↦ (sys, m) | some _ ↦ (ok, m) ]
  | some b ↦
      if is_idle b.status
      then (ok, m)
      else if not (is_waiting b.status) && not (is_creating b.status)
      then (edu_inval_status, m)
      else (
        ok,
        record m {
          run_queue = erase id m.run_queue;
          idle_queue = set id (set_status idle b) m.idle_queue;
        },
      )
]

-- The loop of _destroyEDU over the threads: the first entry of `id` is erased.
unfoldable pub forget_thread : ℕ → OrderedMap ℕ → OrderedMap ℕ
forget_thread id [] = []
forget_thread id ((tid, k) ∷ rest) = if k == id then rest else (tid, k) ∷ forget_thread id rest

-- _destroyEDU
unfoldable pub destroy_edu : ℕ → Manager → Rc × Manager
destroy_edu id m =
    let forgotten = record m { tid_eduid_map = forget_thread id m.tid_eduid_map } in
    elim (find id m.run_queue) [
      | none ↦ elim (find id m.idle_queue) [
        | none ↦ (sys, m)
        | some b ↦
            if not (is_idle b.status)
            then (edu_inval_status, m)
            else (ok, record forgotten { idle_queue = erase id m.idle_queue })
      ]
      | some b ↦
          if not (is_waiting b.status) && not (is_creating b.status)
          then (edu_inval_status, m)
          else (ok, record forgotten { run_queue = erase id m.run_queue })
    ]

-- sizeRun (), sizeIdle () and sizeSystem ()
abbrev pub size_run : Manager → ℕ
size_run m = length m.run_queue % 4294967296

abbrev pub size_idle : Manager → ℕ
size_idle m = length m.idle_queue % 4294967296

abbrev pub size_system : Manager → ℕ
size_system m = length m.system_edus % 4294967296
