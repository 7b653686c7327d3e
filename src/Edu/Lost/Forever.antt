-- ===== src/Edu/Lost/Forever.antt =====
-- pmd/pmdEDUMgr.cpp: whatever steps the threads take, a pooled EDU that has taken an event stays lost.
use emeralddb_src.Base.{
  ℕ, ◌≡◌, refl, sym, subst, Bool, false, none, some, inl, inr, [], ◌∷◌, ◌++◌, List, ap,
}
use emeralddb_src.Edu.OrderedMap.{find, find-set, find-erase_ne}
use emeralddb_src.Edu.Block.{
  Block, Event, agent, is_idle, wait_event, begin_wait, end_wait_on, take_event, EventType,
  no_event, term, resume, active, deactive, msg, timed_out, lock_wakeup,
}
use emeralddb_src.Edu.Manager.{
  Manager, get_edu_by_id, set_block, set_edu, wait_edu, wait_edu_post, activate_edu, deactivate_edu,
  destroy_edu,
}
use emeralddb_src.Edu.Pool.{first_idle, return_edu, reuse_edu}
use emeralddb_src.Edu.Invariant.{IsManager}
use emeralddb_src.Edu.Table.{
  activate_edu-Outcome, wait_edu-Outcome, deactivate_edu-Outcome, destroy_edu-Outcome,
}
use emeralddb_src.Edu.Force.{force_edus, force_user_edu, reg_system_edu}
use emeralddb_src.Edu.Forced.{force_all-Similar, force_user_edu-Similar}
use emeralddb_src.Edu.Reach.{is_poolable-agent, Reachable-IsManager}
use emeralddb_src.Edu.Step.{
  Step, activates, waits, deactivates, destroys, enters, launches, reuses, posts, takes, registers,
  forces, forces_all, registers_system, quiesces, sets_destroyed, Reachable, then_step, Follows,
  stays, goes_on,
}
use emeralddb_src.Edu.Lost.{
  IsLost, same_queue-IsLost, Outcome-elsewhere, activate_edu_in_vain, wait_edu_in_vain,
  deactivate_edu_in_vain, destroy_edu_in_vain, not_chosen, not_returned, same_or_else,
  Similar-IsLost, takes-IsLost, posts-IsLost, launches-IsLost, enters-IsLost,
}

module _ (m : Manager) (id : ℕ) (valid : IsManager m) (lost : IsLost id m) where
  Step-IsLost : {m' : Manager} → Step m m' → IsLost id m'
  unfolding reuse_edu force_edus reg_system_edu
  Step-IsLost (activates k) =
      same_or_else m id valid lost k _
        (λ e. subst (λ x. (activate_edu x m).1 ≡ m) (sym e) (activate_edu_in_vain m id valid lost))
        (Outcome-elsewhere m k (activate_edu-Outcome m valid k) id)
  Step-IsLost (waits k) =
      same_or_else m id valid lost k _
        (λ e. subst (λ x. (wait_edu x m).1 ≡ m) (sym e) (wait_edu_in_vain m id valid lost))
        (Outcome-elsewhere m k (wait_edu-Outcome m valid k) id)
  Step-IsLost (deactivates k b e t) =
      same_or_else m id valid lost k _
        (λ s.
          subst (λ x. (deactivate_edu x m).1 ≡ m) (sym s)
            (ap (λ r. r.1) (deactivate_edu_in_vain m id valid lost)))
        (Outcome-elsewhere m k
          (deactivate_edu-Outcome m valid k (λ c h.
            let same : b ≡ c = cc in
            subst (λ x. x.edu_type ≡ agent) same (is_poolable-agent b.edu_type t)))
          id)
  Step-IsLost (destroys k) =
      same_or_else m id valid lost k _
        (λ s.
          subst (λ x. (destroy_edu x m).1 ≡ m) (sym s)
            (ap (λ r. r.1) (destroy_edu_in_vain m id valid lost)))
        (Outcome-elsewhere m k (destroy_edu-Outcome m valid k) id)
  Step-IsLost (enters t k m' room e) = enters-IsLost m id valid lost t k m' e
  Step-IsLost (launches made arg k) = launches-IsLost m id valid lost made arg k
  Step-IsLost (reuses t arg k b p e) =
      same_queue-IsLost id m (reuse_edu t arg k b m)
        (find-erase_ne id k m.idle_queue (not_chosen m id valid lost k b e)) lost
  Step-IsLost (posts k e) = posts-IsLost m id valid lost k e
  Step-IsLost (takes k arrived) = takes-IsLost m id valid lost k arrived
  Step-IsLost (registers tid k) = same_queue-IsLost id m (set_edu tid k m) refl lost
  Step-IsLost (forces k) =
      Similar-IsLost m id valid lost (force_user_edu k m).1 (force_user_edu-Similar k m)
  Step-IsLost (forces_all p) =
      Similar-IsLost m id valid lost (force_edus p m) (force_all-Similar _ m.idle_queue)
  Step-IsLost (registers_system t k) = same_queue-IsLost id m (reg_system_edu t k m) refl lost
  Step-IsLost (quiesces b) = same_queue-IsLost id m (record m { is_quiesced = b }) refl lost
  Step-IsLost (sets_destroyed b) = same_queue-IsLost id m (record m { is_destroyed = b }) refl lost

Follows-IsLost :
    (m : Manager) (id : ℕ) {m' : Manager}
    → Reachable m
    → IsLost id m
    → Follows m m'
    → Reachable m' × IsLost id m'
Follows-IsLost m id r lost stays = (r, lost)
Follows-IsLost m id r lost (goes_on {m' = m1} f s) =
    let (r1, lost1) = Follows-IsLost m id r lost f in
    (then_step r1 s, Step-IsLost m1 id (Reachable-IsManager m1 r1) lost1 s)

take_event_busy :
    (t : EventType) (e : Event) (b : Block)
    → e.event_type ≡ t
    → (t ≡ term → ⊥)
    → is_idle (take_event e b).status ≡ false
take_event_busy term e b h other = absurd (other refl)
take_event_busy no_event e b h other = rw h refl
take_event_busy resume e b h other = rw h refl
take_event_busy active e b h other = rw h refl
take_event_busy deactive e b h other = rw h refl
take_event_busy msg e b h other = rw h refl
take_event_busy timed_out e b h other = rw h refl
take_event_busy lock_wakeup e b h other = rw h refl

end_wait_busy :
    (queue : List Event) (b : Block) (e : Event)
    → (end_wait_on queue b).0 ≡ some e
    → (e.event_type ≡ term → ⊥)
    → is_idle (end_wait_on queue b).1.status ≡ false
end_wait_busy [] b e took other = cc
end_wait_busy (x ∷ rest) b e took other =
    let q : e ≡ x = cc in
    take_event_busy x.event_type x (record b { queue = rest }) refl
      (subst (λ y. y.event_type ≡ term → ⊥) q other)

set_block_resting :
    (m : Manager) (id : ℕ) (b : Block)
    → find id m.run_queue ≡ none
    → find id (set_block id b m).idle_queue ≡ some b
unfolding set_block
set_block_resting m id b n = rw (n, set_block) (find-set id b m.idle_queue)

-- An EDU of the idle queue takes an event: it is lost from then on.
taken-IsLost :
    (m : Manager) (id : ℕ) (b : Block) (e : Event) (arrived : List Event)
    → IsManager m
    → find id m.idle_queue ≡ some b
    → (wait_edu_post id arrived m).1 ≡ some e
    → (e.event_type ≡ term → ⊥)
    → IsLost id (wait_edu_post id arrived m).2
unfolding wait_edu_post wait_event get_edu_by_id
taken-IsLost m id b e arrived valid inside took other =
    let n : find id m.run_queue ≡ none = elim (valid.apart id) [ inl k ↦ k | inr k ↦ cc ] in
    let took' : (wait_event arrived b).0 ≡ some e =
      rw (n, inside, wait_edu_post, get_edu_by_id) at took in
    rw (n, inside, wait_edu_post, get_edu_by_id)
      (
        (wait_event arrived b).1,
        set_block_resting m id (wait_event arrived b).1 n,
        end_wait_busy ((begin_wait b).queue ++ arrived) (begin_wait b) e took' other,
      )

-- An EDU of the idle queue, of a manager in reach, takes an event other than TERM. Whatever steps
-- the threads take after that, the EDU stays in the idle queue with a status other than idle:
-- startEDU never chooses it again, and returnEDU never reports it destroyed.
pub pooled_edu-IsLost :
    (m m' : Manager) (id max_pool : ℕ) (force : Bool) (b : Block) (e : Event) (arrived : List Event)
    → Reachable m
    → find id m.idle_queue ≡ some b
    → (wait_edu_post id arrived m).1 ≡ some e
    → (e.event_type ≡ term → ⊥)
    → Follows (wait_edu_post id arrived m).2 m'
    → ((c : Block) → first_idle m'.idle_queue ≡ some (id, c) → ⊥)
      × ((return_edu max_pool id force m').1 ≡ false)
      × IsLost id m'
pooled_edu-IsLost m m' id max_pool force b e arrived r inside took other f =
    let (r', lost) =
      Follows-IsLost _ id (then_step r (takes id arrived))
        (taken-IsLost m id b e arrived (Reachable-IsManager m r) inside took other) f in
    let valid = Reachable-IsManager m' r' in
    (
      (λ c h. not_chosen m' id valid lost id c h refl),
      not_returned m' id valid lost max_pool force,
      lost,
    )
