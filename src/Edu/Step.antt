-- ===== src/Edu/Step.antt =====
-- The critical sections of pmd/pmdEDUMgr.cpp as steps, which the threads take in any order, and the
-- managers that they reach.
use emeralddb_src.Base.{ℕ, ◌+◌, ◌<◌, ◌≡◌, Bool, true, List, some}
use emeralddb_src.Edu.Block.{Block, Event, EduType, is_poolable}
use emeralddb_src.Edu.Manager.{
  Manager, new_manager, get_edu_by_id, post_edu_post, wait_edu_post, wait_edu, activate_edu,
  deactivate_edu, destroy_edu, set_edu,
}
use emeralddb_src.Edu.Force.{Property, force_user_edu, force_edus, reg_system_edu}
use emeralddb_src.Edu.Pool.{enter_edu, launch_edu, first_idle, reuse_edu}

-- A pooled thread is an agent, since returnEDU deactivates no other, and the 64-bit ids do not wrap.
pub data Step (m : Manager) : Manager → Type 0 where
  activates : (id : ℕ) → Step m (activate_edu id m).1
  waits : (id : ℕ) → Step m (wait_edu id m).1
  deactivates :
      (id : ℕ) (b : Block)
      → get_edu_by_id m id ≡ some b
      → is_poolable b.edu_type ≡ true
      → Step m (deactivate_edu id m).1
  destroys : (id : ℕ) → Step m (destroy_edu id m).1
  enters :
      (t : EduType) (id : ℕ) (m' : Manager)
      → m.next_id + 1 < 18446744073709551616
      → enter_edu t m ≡ some (id, m')
      → Step m m'
  launches : (made : Bool) (arg id : ℕ) → Step m (launch_edu made arg id m).1
  reuses :
      (t : EduType) (arg id : ℕ) (b : Block)
      → is_poolable t ≡ true
      → first_idle m.idle_queue ≡ some (id, b)
      → Step m (reuse_edu t arg id b m)
  posts : (id : ℕ) (e : Event) → Step m (post_edu_post id e m).1
  takes : (id : ℕ) (arrived : List Event) → Step m (wait_edu_post id arrived m).2
  registers : (tid id : ℕ) → Step m (set_edu tid id m)
  forces : (id : ℕ) → Step m (force_user_edu id m).1
  forces_all : (p : Property) → Step m (force_edus p m)
  registers_system : (t : EduType) (id : ℕ) → Step m (reg_system_edu t id m)
  quiesces : (b : Bool) → Step m (record m { is_quiesced = b })
  sets_destroyed : (b : Bool) → Step m (record m { is_destroyed = b })

pub data Reachable : Manager → Type 0 where
  start : Reachable new_manager
  then_step : {m m' : Manager} → Reachable m → Step m m' → Reachable m'

-- The managers that the threads reach from one
pub data Follows (m : Manager) : Manager → Type 0 where
  stays : Follows m m
  goes_on : {m' m'' : Manager} → Follows m m' → Step m' m'' → Follows m m''
