-- ===== src/Edu/Thread.antt =====
-- pmd/pmdEDU.cpp: pmdEDUEntryPoint, the loop that a thread of the pool runs. The flag that shuts the database down is
-- not modelled, nor is the release of an event's memory.
use emeralddb_src.Base.{
  ℕ, ◌≡◌, refl, inl, inr, Bool, true, false, not, ◌&&◌, ◌||◌, ltb, List, [], ◌∷◌, none, some, ◌==◌,
  if◌then◌else◌, if_cases, Bool-cases, Option-cases,
}
use emeralddb_src.Core.{Rc}
use emeralddb_src.Edu.Block.{
  EduType, agent, tcp_listener, unknown, is_poolable, Event, EventType, no_event, resume,
}
use emeralddb_src.Edu.Manager.{Manager, get_edu_by_id, wait_edu_post, wait_edu, size}
use emeralddb_src.Edu.Pool.{return_edu}
use emeralddb_src.Edu.Invariant.{IsManager}
use emeralddb_src.Edu.Return.{Returned, return_edu-Returned}
use emeralddb_src.Edu.Step.{Reachable, then_step, takes, waits, destroys, deactivates}
use emeralddb_src.Edu.Reach.{Reachable-IsManager}

-- A round of the loop: the events that arrive during waitEvent, what the main function of the thread and the other
-- threads do to the manager until it returns, and what the others do until returnEDU.
pub record EduRound : Type 0 where
  pub arrived : List Event
  pub main : Manager → Manager
  pub others : Manager → Manager

-- The variables `isForced` and `event`
pub record Local : Type 0 where
  pub is_forced : Bool
  pub event : Event

abbrev pub is_resume : EventType → Bool
is_resume resume = true
is_resume _ = false

-- A round ends the loop, or it goes on with these variables.
pub data Next : Type 0 where
  again : Local → Manager → Next
  destroyed : Manager → Next

-- The event after its data is released
abbrev pub release_event : Local → Event
release_event v =
    if not v.is_forced && (not (v.event.payload == 0) && v.event.release)
    then record { event_type = no_event; release = false; payload = 0 }
    else v.event

-- A round from the test of the event on
unfoldable pub handle_event : ℕ → ℕ → EduRound → Local → Manager → Next
handle_event max_pool id t v m =
    let called = (wait_edu id (t.main (wait_edu id m).1)).1 in
    let m' = if not v.is_forced && is_resume v.event.event_type then called else m in
    let (rc, gone, m'') = return_edu max_pool id v.is_forced (t.others m') in
    if gone then destroyed m'' else again (record v { event = release_event v }) m''

-- isForced ()
abbrev pub block_is_forced : Manager → ℕ → Bool
block_is_forced m id = elim (get_edu_by_id m id) [ none ↦ false | some b ↦ b.is_forced ]

-- A round of pmdEDUEntryPoint
unfoldable pub edu_round : ℕ → ℕ → EduRound → Local → Manager → Next
edu_round max_pool id t v m =
    let (rc, got, m') = wait_edu_post id t.arrived m in
    elim got [
      | some e ↦ handle_event max_pool id t (record v { event = e }) m'
      | none ↦
          if block_is_forced m' id
          then handle_event max_pool id t (record v { is_forced = true }) m'
          else again v m'
    ]

-- The loop of pmdEDUEntryPoint, over its rounds
unfoldable pub edu_loop : ℕ → ℕ → List EduRound → Local → Manager → Next
edu_loop max_pool id [] v m = again v m
edu_loop max_pool id (t ∷ ts) v m = elim (edu_round max_pool id t v m) [
  | destroyed m' ↦ destroyed m'
  | again v' m' ↦ edu_loop max_pool id ts v' m'
]

-- The main function and the other threads take steps of the manager.
abbrev pub TakesSteps : EduRound → Type 0
TakesSteps t =
    ((m : Manager) → Reachable m → Reachable (t.main m))
    × ((m : Manager) → Reachable m → Reachable (t.others m))

abbrev pub AllTakeSteps : List EduRound → Type 0
AllTakeSteps [] = Unit {0}
AllTakeSteps (t ∷ ts) = TakesSteps t × AllTakeSteps ts

-- The thread ends only once the manager has its EDU no more, and else goes on with a manager in reach.
abbrev pub EndsForgotten : ℕ → Next → Type 0
EndsForgotten id (destroyed m) = get_edu_by_id m id ≡ none
EndsForgotten id (again v m) = Reachable m

poolable_of :
    (t : EduType) (x y z : Bool) → not (is_poolable t) || x || y || z ≡ false → is_poolable t ≡ true
poolable_of tcp_listener x y z e = cc
poolable_of agent x y z e = refl
poolable_of unknown x y z e = cc

module _ (max_pool id : ℕ) where
  -- returnEDU says that an EDU is destroyed only when it is.
  gone_forgotten :
      (force : Bool) (m : Manager)
      → IsManager m
      → (return_edu max_pool id force m).1 ≡ true
      → get_edu_by_id (return_edu max_pool id force m).2 id ≡ none
  unfolding return_edu
  gone_forgotten force m valid e = elim (Option-cases (get_edu_by_id m id)) [
    | inl n ↦ rw (n, return_edu) n
    | inr (b, known) ↦ forgotten _ (return_edu-Returned max_pool force m id b valid known) e
  ]
    where
      forgotten :
          (r : Rc × Bool × Manager) → Returned m id r → r.1 ≡ true → get_edu_by_id r.2 id ≡ none
      forgotten (rc, true, m') h e = h.1
      forgotten (rc, false, m') h e = absurd cc

  return_edu-Reachable :
      (force : Bool) (m : Manager) → Reachable m → Reachable (return_edu max_pool id force m).2
  unfolding return_edu
  return_edu-Reachable force m r = elim (Option-cases (get_edu_by_id m id)) [
    | inl n ↦ rw (n, return_edu) r
    | inr (b, known) ↦
        elim (Bool-cases
          (not (is_poolable b.edu_type) || force || m.is_destroyed || ltb max_pool (size m))) [
            | inl out ↦ rw (known, out, return_edu) (then_step r (destroys id))
            | inr keep ↦
                rw (known, keep, return_edu)
                  (then_step r (
                    deactivates id b known
                      (poolable_of b.edu_type force m.is_destroyed (ltb max_pool (size m)) keep)))
          ]
  ]

  handle_event-EndsForgotten :
      (t : EduRound) (v : Local) (m : Manager)
      → TakesSteps t
      → Reachable m
      → EndsForgotten id (handle_event max_pool id t v m)
  unfolding handle_event
  handle_event-EndsForgotten t v m (main, others) r =
      let called = (wait_edu id (t.main (wait_edu id m).1)).1 in
      let asked = not v.is_forced && is_resume v.event.event_type in
      let before = if asked then called else m in
      let r' : Reachable before =
        if_cases Reachable asked called m
          (λ e. then_step (main _ (then_step r (waits id))) (waits id)) (λ e. r) in
      if_cases (EndsForgotten id) (return_edu max_pool id v.is_forced (t.others before)).1 _ _
        (λ e.
          gone_forgotten v.is_forced (t.others before)
            (Reachable-IsManager (t.others before) (others before r')) e)
        λ e. return_edu-Reachable v.is_forced (t.others before) (others before r')

  edu_round-EndsForgotten :
      (t : EduRound) (v : Local) (m : Manager)
      → TakesSteps t
      → Reachable m
      → EndsForgotten id (edu_round max_pool id t v m)
  unfolding edu_round
  edu_round-EndsForgotten t v m steps r =
      let r' : Reachable (wait_edu_post id t.arrived m).2 = then_step r (takes id t.arrived) in
      elim (Option-cases (wait_edu_post id t.arrived m).1) [
        | inl n ↦
            rw (n, edu_round)
              (if_cases (EndsForgotten id) (block_is_forced (wait_edu_post id t.arrived m).2 id) _ _
                (λ e. handle_event-EndsForgotten t _ _ steps r') λ e. r')
        | inr (e, got) ↦ rw (got, edu_round) (handle_event-EndsForgotten t _ _ steps r')
      ]

  next-EndsForgotten :
      (n : Next) (later : Local → Manager → Next)
      → EndsForgotten id n
      → ((v : Local) (m : Manager) → Reachable m → EndsForgotten id (later v m))
      → EndsForgotten id
          (elim n as (λ _. Next) [ destroyed m' ↦ destroyed m' | again v' m' ↦ later v' m' ])
  next-EndsForgotten (again v m) later h k = k v m h
  next-EndsForgotten (destroyed m) later h k = h

  -- From a manager in reach, and where the main function of a thread and the other threads take
  -- steps of the manager, the main loop of a thread ends only once the manager has its EDU no more,
  -- and else goes on with a manager in reach.
  pub edu_loop-EndsForgotten :
      (ts : List EduRound) (v : Local) (m : Manager)
      → AllTakeSteps ts
      → Reachable m
      → EndsForgotten id (edu_loop max_pool id ts v m)
  unfolding edu_loop
  edu_loop-EndsForgotten [] v m h r = r
  edu_loop-EndsForgotten (t ∷ ts) v m (h, rest) r =
      next-EndsForgotten (edu_round max_pool id t v m) (edu_loop max_pool id ts)
        (edu_round-EndsForgotten t v m h r) λ v' m' r'. edu_loop-EndsForgotten ts v' m' rest r'
