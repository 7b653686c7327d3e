-- ===== src/Edu/Reach.antt =====
-- The steps of pmd/pmdEDUMgr.cpp on the invariant of the manager.
use emeralddb_src.Base.{
  ℕ, ◌+◌, ◌%◌, ◌≤◌, ◌<◌, ◌≡◌, refl, subst, ◌∙◌, ◌⊎◌, inl, inr, Bool, true, false, List, [], ◌∷◌,
  none, some, arith, Bool-cases, Option-cases,
}
use emeralddb_src.Edu.OrderedMap.{OrderedMap, Sorted, erase-Sorted, set-Sorted, find, set}
use emeralddb_src.Edu.Block.{
  Block, Event, EduType, agent, tcp_listener, unknown, running, waiting, idle, is_idle, is_poolable,
  new_block,
}
use emeralddb_src.Edu.Manager.{
  Manager, new_manager, get_edu_by_id, set_block, set_edu, post_edu_post, wait_edu_post,
}
use emeralddb_src.Core.{Rc}
use emeralddb_src.Edu.Change.{Change, wakes, updates_run, updates_idle, Change-IsManager}
use emeralddb_src.Edu.Table.{
  Row, Outcome, missing, refused, moved, there, astray, pooled, activate_edu-Outcome,
  wait_edu-Outcome, deactivate_edu-Outcome, destroy_edu-Outcome,
}
use emeralddb_src.Edu.Force.{reg_system_edu}
use emeralddb_src.Edu.Forced.{force_user_edu-IsManager, force_edus-IsManager}
use emeralddb_src.Edu.Pool.{enter_edu, launch_edu, first_idle, reuse_edu}
use emeralddb_src.Edu.Invariant.{
  All-set, All-erase, Apart-set, Apart-erase, InRun, InIdle, IsManager,
}
use emeralddb_src.Edu.Step.{
  Step, activates, waits, deactivates, destroys, enters, launches, reuses, posts, takes, registers,
  forces, forces_all, registers_system, quiesces, sets_destroyed, Reachable, start, then_step,
}
use emeralddb_src.Edu.Waited.{Waited, wait_event-Waited}

module _ (m : Manager) (id : ℕ) where
  Outcome-IsManager :
      {row : Row} {r : Rc × Manager} → IsManager m → Outcome row m id r → IsManager r.1
  Outcome-IsManager valid (missing _) = valid
  Outcome-IsManager valid (refused b _ _ _) = valid
  Outcome-IsManager valid (moved c _ _) = Change-IsManager m valid id c
  Outcome-IsManager valid (there b _ _) = valid
  Outcome-IsManager valid (astray b _ _) = valid
  Outcome-IsManager valid (pooled b _ _) = valid

  -- The block of the id is replaced where it stands.
  set_block-Change :
      (b b' : Block)
      → get_edu_by_id m id ≡ some b
      → Waited b b'
      → IsManager m
      → Change m id b (some b') (set_block id b' m)
  unfolding set_block get_edu_by_id
  set_block-Change b b' e w valid = elim (Option-cases (find id m.run_queue)) [
    | inl n ↦
        let k : find id m.idle_queue ≡ some b = rw (n, get_edu_by_id) at e in
        rw (n, set_block)
          (updates_idle b b' k w.id w.edu_type (rest w.status (valid.idles id b k).resting))
    | inr (c, k) ↦
        let h : some c ≡ some b = rw (k, get_edu_by_id) at e in
        let f : find id m.run_queue ≡ some b = k ∙ h in
        rw (k, set_block) (updates_run b b' f w.id (run w.status (valid.runs id b f).not_idle))
  ]
    where
      run :
          (b'.status ≡ b.status) ⊎ (b'.status ≡ running) ⊎ (b'.status ≡ waiting)
          → is_idle b.status ≡ false
          → is_idle b'.status ≡ false
      run (inl s) n = rw s n
      run (inr (inl s)) n = rw s refl
      run (inr (inr s)) n = rw s refl

      rest :
          (b'.status ≡ b.status) ⊎ (b'.status ≡ running) ⊎ (b'.status ≡ waiting)
          → (b.status ≡ idle) ⊎ (b.status ≡ running) ⊎ (b.status ≡ waiting)
          → (b'.status ≡ idle) ⊎ (b'.status ≡ running) ⊎ (b'.status ≡ waiting)
      rest (inl s) h = rw s h
      rest (inr s) h = inr s

-- What `startEDU` chooses is in the idle queue.
pub first_idle_found :
    (lo id : ℕ) (b : Block) (queue : OrderedMap Block)
    → Sorted lo queue
    → first_idle queue ≡ some (id, b)
    → (lo ≤ id) × (find id queue ≡ some b)
unfolding first_idle find
first_idle_found lo id b [] s e = cc
first_idle_found lo id b ((k, c) ∷ rest) s e = elim (Bool-cases (is_idle c.status)) [
  | inl i ↦
      let h : some (k, c) ≡ some (id, b) = rw (i, first_idle) at e in
      let p : k ≡ id = cc in let q : c ≡ b = cc in (omega (arith, s.0), ground (arith, q))
  | inr n ↦
      let h : first_idle rest ≡ some (id, b) = rw (n, first_idle) at e in
      let t = first_idle_found (k + 1) id b rest s.1 h in
      (omega (arith, s.0, t.0), ground (arith, t.0, t.1))
]

InRun-later : (n k : ℕ) (b : Block) → InRun n k b → InRun (n + 1) k b
InRun-later n k b r = record {
  has_id = r.has_id;
  below = omega (arith, r.below);
  not_idle = r.not_idle;
}

InIdle-later : (n k : ℕ) (b : Block) → InIdle n k b → InIdle (n + 1) k b
InIdle-later n k b r = record {
  has_id = r.has_id;
  below = omega (arith, r.below);
  pooled = r.pooled;
  resting = r.resting;
}

nowhere_idle : (m : Manager) (id : ℕ) → get_edu_by_id m id ≡ none → find id m.idle_queue ≡ none
unfolding get_edu_by_id
nowhere_idle m id e = elim (Option-cases (find id m.run_queue)) [
  | inl n ↦ let h : find id m.idle_queue ≡ none = rw (n, get_edu_by_id) at e in h
  | inr (b, k) ↦ let h : some b ≡ none = rw (k, get_edu_by_id) at e in cc
]

module _ (m : Manager) (valid : IsManager m) where
  -- The manager with a new block in the run queue.
  entered-IsManager :
      (b : Block)
      → b.id ≡ m.next_id
      → is_idle b.status ≡ false
      → find m.next_id m.idle_queue ≡ none
      → (n : ℕ) → n ≡ m.next_id + 1
      → IsManager (record m { run_queue = set m.next_id b m.run_queue; next_id = n })
  entered-IsManager b i s e n later = record {
    apart = Apart-set m.run_queue m.idle_queue valid.apart m.next_id b e;
    runs = rw later (
        All-set (InRun (m.next_id + 1)) m.next_id b m.run_queue
          (record { has_id = i; below = omega arith; not_idle = s })
          (λ k c h. InRun-later m.next_id k c (valid.runs k c h)));
    idles = rw later λ k c h. InIdle-later m.next_id k c (valid.idles k c h);
    sorted_run = set-Sorted 0 m.next_id b m.run_queue (omega arith) valid.sorted_run;
    sorted_idle = valid.sorted_idle;
  }

  enter_edu-IsManager :
      (t : EduType) (id : ℕ) (m' : Manager)
      → m.next_id + 1 < 18446744073709551616
      → enter_edu t m ≡ some (id, m')
      → IsManager m'
  unfolding enter_edu get_edu_by_id
  enter_edu-IsManager t id m' room e = elim (Option-cases (get_edu_by_id m m.next_id)) [
    | inl n ↦
        let h = rw (n, enter_edu) at e in
        subst (λ o. IsManager (elim o [ none ↦ m | some (_, k) ↦ k ])) h
          (entered-IsManager (record (new_block t) { id = m.next_id }) refl refl
            (nowhere_idle m m.next_id n) ((m.next_id + 1) % 18446744073709551616) (omega arith))
    | inr (b, k) ↦ let h : none ≡ some (id, m') = rw (k, enter_edu) at e in cc
  ]

  launch_edu-IsManager : (made : Bool) (arg id : ℕ) → IsManager (launch_edu made arg id m).1
  unfolding launch_edu
  launch_edu-IsManager false arg id = record {
    apart = Apart-erase m.run_queue m.idle_queue valid.apart id;
    runs = All-erase (InRun m.next_id) id m.run_queue valid.runs;
    idles = valid.idles;
    sorted_run = erase-Sorted 0 id m.run_queue valid.sorted_run;
    sorted_idle = valid.sorted_idle;
  }
  launch_edu-IsManager true arg id = elim (Option-cases (get_edu_by_id m id)) [
    | inl n ↦ rw (n, launch_edu) valid
    | inr (b, e) ↦
        rw (e, launch_edu)
          (Change-IsManager m valid id (
            set_block-Change m id b _ e (record { id = refl; edu_type = refl; status = inl refl })
              valid))
  ]

  reuse_edu-IsManager :
      (t : EduType) (arg id : ℕ) (b : Block)
      → first_idle m.idle_queue ≡ some (id, b)
      → IsManager (reuse_edu t arg id b m)
  unfolding reuse_edu
  reuse_edu-IsManager t arg id b e =
      Change-IsManager m valid id
        (wakes b _ (first_idle_found 0 id b m.idle_queue valid.sorted_idle e).1 refl refl)

  post_edu_post-IsManager : (id : ℕ) (e : Event) → IsManager (post_edu_post id e m).1
  unfolding post_edu_post
  post_edu_post-IsManager id e = elim (Option-cases (get_edu_by_id m id)) [
    | inl n ↦ rw (n, post_edu_post) valid
    | inr (b, k) ↦
        rw (k, post_edu_post)
          (Change-IsManager m valid id (
            set_block-Change m id b _ k (record { id = refl; edu_type = refl; status = inl refl })
              valid))
  ]

  wait_edu_post-IsManager :
      (id : ℕ) (arrived : List Event) → IsManager (wait_edu_post id arrived m).2
  unfolding wait_edu_post
  wait_edu_post-IsManager id arrived = elim (Option-cases (get_edu_by_id m id)) [
    | inl n ↦ rw (n, wait_edu_post) valid
    | inr (b, k) ↦
        rw (k, wait_edu_post)
          (Change-IsManager m valid id
            (set_block-Change m id b _ k (wait_event-Waited arrived b) valid))
  ]

pub is_poolable-agent : (t : EduType) → is_poolable t ≡ true → t ≡ agent
is_poolable-agent agent e = refl
is_poolable-agent tcp_listener e = cc
is_poolable-agent unknown e = cc

-- The invariant is about the queues and the next id.
same_queues-IsManager :
    (m : Manager)
    → IsManager m
    → (m' : Manager) → m'.run_queue ≡ m.run_queue
    → m'.idle_queue ≡ m.idle_queue
    → m'.next_id ≡ m.next_id
    → IsManager m'
same_queues-IsManager m valid m' r i n = record {
  apart = rw (r, i) valid.apart;
  runs = rw (r, n) valid.runs;
  idles = rw (i, n) valid.idles;
  sorted_run = rw r valid.sorted_run;
  sorted_idle = rw i valid.sorted_idle;
}

Step-IsManager : {m m' : Manager} → IsManager m → Step m m' → IsManager m'
unfolding reg_system_edu
Step-IsManager {m = m} valid (activates id) =
    Outcome-IsManager m id valid (activate_edu-Outcome m valid id)
Step-IsManager {m = m} valid (waits id) = Outcome-IsManager m id valid (wait_edu-Outcome m valid id)
Step-IsManager {m = m} valid (deactivates id b e t) = Outcome-IsManager m id valid (
    deactivate_edu-Outcome m valid id λ c k.
      let same : b ≡ c = cc in
      subst (λ x. x.edu_type ≡ agent) same (is_poolable-agent b.edu_type t))
Step-IsManager {m = m} valid (destroys id) =
    Outcome-IsManager m id valid (destroy_edu-Outcome m valid id)
Step-IsManager {m = m} valid (enters t id m' room e) = enter_edu-IsManager m valid t id m' room e
Step-IsManager {m = m} valid (launches made arg id) = launch_edu-IsManager m valid made arg id
Step-IsManager {m = m} valid (reuses t arg id b p e) = reuse_edu-IsManager m valid t arg id b e
Step-IsManager {m = m} valid (posts id e) = post_edu_post-IsManager m valid id e
Step-IsManager {m = m} valid (takes id arrived) = wait_edu_post-IsManager m valid id arrived
Step-IsManager {m = m} valid (forces id) = force_user_edu-IsManager m valid id
Step-IsManager {m = m} valid (forces_all p) = force_edus-IsManager m valid p
Step-IsManager {m = m} valid (registers_system t id) =
    same_queues-IsManager m valid (reg_system_edu t id m) refl refl refl
Step-IsManager {m = m} valid (quiesces b) =
    same_queues-IsManager m valid (record m { is_quiesced = b }) refl refl refl
Step-IsManager {m = m} valid (sets_destroyed b) =
    same_queues-IsManager m valid (record m { is_destroyed = b }) refl refl refl
Step-IsManager {m = m} valid (registers tid id) =
    same_queues-IsManager m valid (set_edu tid id m) refl refl refl

new_manager-IsManager : IsManager new_manager
unfolding find
new_manager-IsManager = record {
  apart = λ k. inl refl;
  runs = λ k v e. cc;
  idles = λ k v e. cc;
  sorted_run = tt;
  sorted_idle = tt;
}

-- Every manager that the threads reach from a new one, in whatever order they take the critical
-- sections of the operations, those that force EDUs, register system EDUs or set the two flags
-- included, where only agents are deactivated and the next id does not wrap, keeps each EDU in one
-- queue only and under its own id, which is below the next one, has no idle EDU in the run queue,
-- and has only agents in the idle queue.
pub Reachable-IsManager : (m : Manager) → Reachable m → IsManager m
Reachable-IsManager _ start = new_manager-IsManager
Reachable-IsManager _ (then_step {m = m} r s) = Step-IsManager (Reachable-IsManager m r) s
