-- ===== src/Edu/Start.antt =====
-- startEDU of pmd/pmdEDUMgr.cpp, on an idle thread or a new one.
use emeralddb_src.Base.{
  ℕ, ◌+◌, ◌%◌, ◌≡◌, refl, sym, subst, ◌∙◌, ◌⊎◌, inl, inr, Bool, true, false, not, ◌||◌, List, [],
  ◌∷◌, ◌++◌, Option, none, some, arith, ◌==◌, Bool-cases, Option-cases, if_cases,
}
use emeralddb_src.Core.{Rc, ok}
use emeralddb_src.Edu.OrderedMap.{
  find, set, erase, find-set, find-set_ne, find-erase, find-erase_ne,
}
use emeralddb_src.Edu.Block.{
  Block, Event, EduType, creating, waiting, is_poolable, post_event, new_block,
}
use emeralddb_src.Edu.Manager.{Manager, get_edu_by_id, set_block}
use emeralddb_src.Edu.Pool.{
  start_edu, create_new_edu, enter_edu, launch_edu, first_idle, reuse_edu, resume_event,
  has_entry_func, is_empty,
}
use emeralddb_src.Edu.Invariant.{IsManager}
use emeralddb_src.Edu.Change.{same_lookup, Change, wakes, Change-others}
use emeralddb_src.Edu.Reach.{first_idle_found}
use emeralddb_src.Edu.Return.{SameOthers}

-- The EDU is in the run queue with the type asked for, its thread has the event that gives it the
-- argument as the last of its queue, and it has not run yet.
abbrev pub IsReady : EduType → ℕ → Block → Type 0
IsReady t arg b =
    (b.edu_type ≡ t)
    × ((b.status ≡ creating) ⊎ (b.status ≡ waiting))
    × ((before : List Event) × (b.queue ≡ before ++ resume_event arg ∷ []))

abbrev pub Started : EduType → ℕ → Manager → Rc × Option ℕ × Manager → Type 0
Started t arg m (ok, some id, m') =
    ((b : Block) × (find id m'.run_queue ≡ some b) × IsReady t arg b) × SameOthers m id m'
Started t arg m (ok, none, m') = ⊥
Started t arg m (_, _, m') = (k : ℕ) → get_edu_by_id m' k ≡ get_edu_by_id m k

module _ (m : Manager) (t : EduType) (arg : ℕ) where
  abbrev fresh : Block
  fresh = record (new_block t) { id = m.next_id }

  abbrev entered : Manager
  entered = record m {
    run_queue = set m.next_id fresh m.run_queue;
    next_id = (m.next_id + 1) % 18446744073709551616;
  }

  module _ (unused : get_edu_by_id m m.next_id ≡ none) where
    unused_run : find m.next_id m.run_queue ≡ none
    unfolding get_edu_by_id
    unused_run = elim (Option-cases (find m.next_id m.run_queue)) [
      | inl n ↦ n
      | inr (b, k) ↦ let h : some b ≡ none = rw (k, get_edu_by_id) at unused in cc
    ]

    abbrev launched : Manager
    launched = record entered {
      run_queue = set m.next_id (post_event (resume_event arg) fresh) entered.run_queue;
    }

    launch_value : launch_edu true arg m.next_id entered ≡ (ok, launched)
    unfolding launch_edu get_edu_by_id set_block
    launch_value =
        rw (find-set m.next_id fresh m.run_queue, launch_edu, get_edu_by_id)
          (rw (find-set m.next_id fresh m.run_queue, set_block) refl)

    unused_idle : find m.next_id m.idle_queue ≡ none
    unfolding get_edu_by_id
    unused_idle = rw (unused_run, get_edu_by_id) at unused

    failed_launch :
        Started t arg m
          (let (rc, m'') = launch_edu false arg m.next_id entered in (rc, some m.next_id, m''))
    unfolding launch_edu
    failed_launch k = elim (Bool-cases (k == m.next_id)) [
      | inl same ↦
          same_lookup m (launch_edu false arg m.next_id entered).1 k
            (subst (λ x. find x (erase m.next_id entered.run_queue) ≡ find x m.run_queue)
              (ground arith) (find-erase m.next_id entered.run_queue ∙ sym unused_run))
            refl
      | inr other ↦
          same_lookup m (launch_edu false arg m.next_id entered).1 k
            (find-erase_ne k m.next_id entered.run_queue (ground arith)
              ∙ find-set_ne k m.next_id fresh m.run_queue (ground arith))
            refl
    ]

    create-Started :
        (made : Bool)
        → Started t arg m
            (let (rc, m'') = launch_edu made arg m.next_id entered in (rc, some m.next_id, m''))
    create-Started true = rw launch_value (
      (
        post_event (resume_event arg) fresh,
        find-set m.next_id (post_event (resume_event arg) fresh) entered.run_queue,
        (refl, inl refl, ([], refl)),
      ),
      λ k ne.
          same_lookup m launched k
            (find-set_ne k m.next_id (post_event (resume_event arg) fresh) entered.run_queue ne
              ∙ find-set_ne k m.next_id fresh m.run_queue ne)
            refl,
    )
    create-Started false = failed_launch

  create_new_edu-Started :
      (allocated made : Bool) → Started t arg m (create_new_edu allocated made t arg m)
  unfolding create_new_edu enter_edu
  create_new_edu-Started allocated made =
      if_cases (Started t arg m) m.is_quiesced _ _ (λ q k. refl)
        λ q.
          if_cases (Started t arg m) (not (has_entry_func t)) _ _ (λ f k. refl)
            λ f.
              if_cases (Started t arg m) (not allocated) _ _ (λ a k. refl)
                λ a. elim (Option-cases (get_edu_by_id m m.next_id)) [
                  | inl n ↦ rw (n, enter_edu) (create-Started n made)
                  | inr (b, n) ↦ rw (n, enter_edu) λ k. refl
                ]

  reuse-Started :
      (id : ℕ) (b : Block)
      → IsManager m
      → first_idle m.idle_queue ≡ some (id, b)
      → Started t arg m (ok, some id, reuse_edu t arg id b m)
  unfolding reuse_edu
  reuse-Started id b valid e =
      let ready = post_event (resume_event arg) (record b { edu_type = t; status = waiting }) in
      let c : Change m id b (some ready) (reuse_edu t arg id b m) =
        wakes b ready (first_idle_found 0 id b m.idle_queue valid.sorted_idle e).1 refl refl in
      (
        (ready, find-set id ready m.run_queue, (refl, inr refl, (b.queue, refl))),
        Change-others m valid id c,
      )

  start_edu_cases :
      (allocated made : Bool) → IsManager m → Started t arg m (start_edu allocated made t arg m)
  unfolding start_edu
  start_edu_cases allocated made valid =
      let new = create_new_edu-Started allocated made in
      if_cases (Started t arg m) m.is_quiesced _ _ (λ q k. refl)
        λ q.
          if_cases (Started t arg m) (is_empty m.idle_queue || not (is_poolable t)) _ _ (λ n. new)
            λ n. elim (Option-cases (first_idle m.idle_queue)) [
              | inl e ↦ rw e new
              | inr ((id, b), e) ↦ rw e (reuse-Started id b valid e)
            ]

-- On a well-formed manager, `startEDU` returns EDB_OK with the id of an EDU that is ready to run with the
-- type and the argument asked for, the other EDUs being as before, or it returns an error and the EDUs are
-- as before.
pub start_edu-Started :
    (allocated made : Bool) (t : EduType) (arg : ℕ) (m : Manager)
    → IsManager m
    → Started t arg m (start_edu allocated made t arg m)
start_edu-Started allocated made t arg m valid = start_edu_cases m t arg allocated made valid
