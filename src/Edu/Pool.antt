-- ===== src/Edu/Pool.antt =====
-- pmd/pmdEDUMgr.cpp: how a thread is got from the manager and given back to it: startEDU, _createNewEDU and
-- returnEDU. They hold `_mutex` for a part of their body only, and are composed of these parts.
use emeralddb_src.Base.{
  ℕ, ◌+◌, ◌%◌, Bool, true, false, not, ◌||◌, [], ◌∷◌, Option, none, some, ltb, if◌then◌else◌,
}
use emeralddb_src.Core.{Rc, ok, sys, oom, invalidarg, quiesced}
use emeralddb_src.Edu.OrderedMap.{OrderedMap, set, erase}
use emeralddb_src.Edu.Block.{
  Block, Event, EduType, agent, tcp_listener, unknown, resume, waiting, new_block, post_event,
  is_idle, is_poolable,
}
use emeralddb_src.Edu.Manager.{Manager, size, get_edu_by_id, set_block, deactivate_edu, destroy_edu}

-- getEntryFuncByType ( type ) is not NULL
abbrev pub has_entry_func : EduType → Bool
has_entry_func agent = true
has_entry_func tcp_listener = true
has_entry_func unknown = false

-- pmdEDUEvent ( PMD_EDU_EVENT_RESUME, false, arg )
abbrev pub resume_event : ℕ → Event
resume_event arg = record { event_type = resume; release = false; payload = arg }

-- The critical section of _createNewEDU: a control block enters the run queue under the next id. `none`
-- when the id is in use.
unfoldable pub enter_edu : EduType → Manager → Option (ℕ × Manager)
enter_edu t m = elim (get_edu_by_id m m.next_id) [
  | some _ ↦ none
  | none ↦
      let b = record (new_block t) { id = m.next_id } in
      some (
        m.next_id,
        record m {
          run_queue = set m.next_id b m.run_queue;
          next_id = (m.next_id + 1) % 18446744073709551616;
        },
      )
]

-- The rest of _createNewEDU, with whether the thread can be made.
unfoldable pub launch_edu : Bool → ℕ → ℕ → Manager → Rc × Manager
launch_edu false arg id m = (sys, record m { run_queue = erase id m.run_queue })
launch_edu true arg id m = elim (get_edu_by_id m id) [
  | none ↦ (ok, m)
  | some b ↦ (ok, set_block id (post_event (resume_event arg) b) m)
]

-- _createNewEDU, with whether there is memory for the control block and whether the thread can be
-- made; the code, the id that it writes to `*eduid`, and the manager.
unfoldable pub create_new_edu : Bool → Bool → EduType → ℕ → Manager → Rc × Option ℕ × Manager
create_new_edu allocated made t arg m =
    if m.is_quiesced
    then (quiesced, none, m)
    else if not (has_entry_func t)
    then (invalidarg, none, m)
    else if not allocated
    then (oom, none, m)
    else elim (enter_edu t m) [
      | none ↦ (sys, none, m)
      | some (id, m') ↦ let (rc, m'') = launch_edu made arg id m' in (rc, some id, m'')
    ]

-- The loop of startEDU: the first entry of the idle queue whose status is idle.
unfoldable pub first_idle : OrderedMap Block → Option (ℕ × Block)
first_idle [] = none
first_idle ((id, b) ∷ rest) = if is_idle b.status then some (id, b) else first_idle rest

-- startEDU, from the choice of an idle EDU on
unfoldable pub reuse_edu : EduType → ℕ → ℕ → Block → Manager → Manager
reuse_edu t arg id b m =
    let b' = record b { edu_type = t; status = waiting } in
    record m {
      idle_queue = erase id m.idle_queue;
      run_queue = set id (post_event (resume_event arg) b') m.run_queue;
    }

abbrev pub is_empty : OrderedMap Block → Bool
is_empty [] = true
is_empty (_ ∷ _) = false

-- startEDU
unfoldable pub start_edu : Bool → Bool → EduType → ℕ → Manager → Rc × Option ℕ × Manager
start_edu allocated made t arg m =
    if m.is_quiesced
    then (quiesced, none, m)
    else if is_empty m.idle_queue || not (is_poolable t)
    then create_new_edu allocated made t arg m
    else elim (first_idle m.idle_queue) [
      | none ↦ create_new_edu allocated made t arg m
      | some (id, b) ↦ (ok, some id, reuse_edu t arg id b m)
    ]

-- returnEDU, for a `destroyed` that is not NULL; `max_pool` is pmdGetKRCB () -> getMaxPool ().
unfoldable pub return_edu : ℕ → ℕ → Bool → Manager → Rc × Bool × Manager
return_edu max_pool id force m = elim (get_edu_by_id m id) [
  | none ↦ (sys, false, m)
  | some b ↦
      let (destroy_rc, destroyed) = destroy_edu id m in
      let (pool_rc, pooled) = deactivate_edu id m in
      if not (is_poolable b.edu_type) || force || m.is_destroyed || ltb max_pool (size m)
      then (destroy_rc, elim destroy_rc [ ok ↦ true | sys ↦ true | _ ↦ false ], destroyed)
      else (pool_rc, elim pool_rc [ sys ↦ true | _ ↦ false ], pooled)
]
