-- ===== src/Edu/Lost.antt =====
-- pmd/pmdEDUMgr.cpp: an EDU of the idle queue whose status is not idle, which `waitEvent` leaves behind when
-- a pooled thread takes an event.
pub mod Forever
use emeralddb_src.Base.{
  ℕ, ◌≡◌, ◌≢◌, refl, sym, subst, ◌∙◌, Bool, true, false, Option, none, some, Bool-cases,
  Option-cases, inl, inr, [], ◌∷◌, ◌++◌, List, ap, ◌==◌, arith, if_cases,
}
use emeralddb_src.Core.{Rc, ok, edu_inval_status}
use emeralddb_src.Edu.OrderedMap.{OrderedMap, find, set, find-set, find-set_ne, find-erase_ne}
use emeralddb_src.Edu.Block.{
  Block, Event, EduType, agent, is_idle, is_running, wait_event, post_event, begin_wait,
  end_wait_on, take_event, EventType, no_event, term, resume, active, deactive, msg, timed_out,
  lock_wakeup,
}
use emeralddb_src.Edu.Manager.{
  Manager, get_edu_by_id, set_block, set_edu, wait_edu, wait_edu_post, post_edu_post, activate_edu,
  deactivate_edu, destroy_edu,
}
use emeralddb_src.Edu.Pool.{first_idle, return_edu, enter_edu, launch_edu, reuse_edu, resume_event}
use emeralddb_src.Edu.Invariant.{IsManager}
use emeralddb_src.Edu.Change.{
  Change, updates_run, updates_idle, wakes, rests, leaves_run, leaves_idle,
}
use emeralddb_src.Edu.Table.{
  Row, Outcome, missing, refused, moved, there, astray, pooled, activate_edu-Outcome,
  wait_edu-Outcome, deactivate_edu-Outcome, destroy_edu-Outcome,
}
use emeralddb_src.Edu.Force.{forced, force_edus, force_user_edu, reg_system_edu}
use emeralddb_src.Edu.Forced.{Similar, force_all-Similar, force_user_edu-Similar}
use emeralddb_src.Edu.Waited.{wait_event-Waited}
use emeralddb_src.Edu.Reach.{first_idle_found, is_poolable-agent, Reachable-IsManager}
use emeralddb_src.Edu.Step.{
  Step, activates, waits, deactivates, destroys, enters, launches, reuses, posts, takes, registers,
  forces, forces_all, registers_system, quiesces, sets_destroyed, Reachable, then_step, Follows,
  stays, goes_on,
}

first_idle-is_idle :
    (id : ℕ) (b : Block) (queue : OrderedMap Block)
    → first_idle queue ≡ some (id, b)
    → is_idle b.status ≡ true
unfolding first_idle
first_idle-is_idle id b [] e = cc
first_idle-is_idle id b ((k, c) ∷ rest) e = elim (Bool-cases (is_idle c.status)) [
  | inl i ↦
      let h : some (k, c) ≡ some (id, b) = rw (i, first_idle) at e in
      let q : c ≡ b = cc in rw q at i
  | inr n ↦
      let h : first_idle rest ≡ some (id, b) = rw (n, first_idle) at e in
      first_idle-is_idle id b rest h
]

-- The EDU is in the idle queue, with a status other than idle.
abbrev pub IsLost : ℕ → Manager → Type 0
IsLost id m = (b : Block) × (find id m.idle_queue ≡ some b) × (is_idle b.status ≡ false)

pub same_queue-IsLost :
    (id : ℕ) (m m' : Manager)
    → find id m'.idle_queue ≡ find id m.idle_queue
    → IsLost id m
    → IsLost id m'
same_queue-IsLost id m m' same (b, e, busy) = (b, same ∙ e, busy)

-- An operation that changes one EDU does not reach another EDU of the idle queue.
Change-elsewhere :
    (m : Manager) (k : ℕ) {b : Block} {c : Option Block} {m' : Manager}
    → Change m k b c m'
    → (id : ℕ) → id ≢ k
    → find id m'.idle_queue ≡ find id m.idle_queue
Change-elsewhere m k (updates_run b b' e i s) id ne = refl
Change-elsewhere m k (updates_idle b b' e i t s) id ne = find-set_ne id k b' m.idle_queue ne
Change-elsewhere m k (wakes b b' e i s) id ne = find-erase_ne id k m.idle_queue ne
Change-elsewhere m k (rests b b' e i t s) id ne = find-set_ne id k b' m.idle_queue ne
Change-elsewhere m k (leaves_run b tids e) id ne = refl
Change-elsewhere m k (leaves_idle b tids e) id ne = find-erase_ne id k m.idle_queue ne

pub Outcome-elsewhere :
    (m : Manager) (k : ℕ) {row : Row} {r : Rc × Manager}
    → Outcome row m k r
    → (id : ℕ) → id ≢ k
    → find id r.1.idle_queue ≡ find id m.idle_queue
Outcome-elsewhere m k (missing _) id ne = refl
Outcome-elsewhere m k (refused b _ _ _) id ne = refl
Outcome-elsewhere m k (moved c _ _) id ne = Change-elsewhere m k c id ne
Outcome-elsewhere m k (there b _ _) id ne = refl
Outcome-elsewhere m k (astray b _ _) id ne = refl
Outcome-elsewhere m k (pooled b _ _) id ne = refl

module _ (m : Manager) (id : ℕ) (valid : IsManager m) (lost : IsLost id m) where
  not_running : find id m.run_queue ≡ none
  not_running = elim (valid.apart id) [ inl k ↦ k | inr k ↦ let e = lost.1 in cc ]

  pub activate_edu_in_vain : (activate_edu id m).1 ≡ m
  unfolding activate_edu
  activate_edu_in_vain =
      let (b, e, busy) = lost in
      elim (Bool-cases (is_running b.status)) [
        | inl r ↦ rw (e, r, activate_edu) refl
        | inr r ↦ rw (e, r, busy, activate_edu) refl
      ]

  pub wait_edu_in_vain : (wait_edu id m).1 ≡ m
  unfolding wait_edu
  wait_edu_in_vain = rw (not_running, wait_edu) refl

  pub deactivate_edu_in_vain : deactivate_edu id m ≡ (ok, m)
  unfolding deactivate_edu
  deactivate_edu_in_vain = let (b, e, busy) = lost in rw (not_running, e, deactivate_edu) refl

  pub destroy_edu_in_vain : destroy_edu id m ≡ (edu_inval_status, m)
  unfolding destroy_edu
  destroy_edu_in_vain = let (b, e, busy) = lost in rw (not_running, e, busy, destroy_edu) refl

  -- startEDU does not choose it.
  pub not_chosen : (k : ℕ) (c : Block) → first_idle m.idle_queue ≡ some (k, c) → id ≢ k
  not_chosen k c h same =
      let (b, e, busy) = lost in
      let f = (first_idle_found 0 k c m.idle_queue valid.sorted_idle h).1 in
      let f' : find id m.idle_queue ≡ some c =
        subst (λ x. find x m.idle_queue ≡ some c) (sym same) f in
      let q : b ≡ c = cc in
      let i = first_idle-is_idle k c m.idle_queue h in
      let i' : is_idle b.status ≡ true = rw q i in absurd cc

  is_known : get_edu_by_id m id ≡ some (lost.0)
  unfolding get_edu_by_id
  is_known = let (b, e, busy) = lost in rw (not_running, e, get_edu_by_id) refl

  -- returnEDU does not report it destroyed.
  pub not_returned : (max_pool : ℕ) (force : Bool) → (return_edu max_pool id force m).1 ≡ false
  unfolding return_edu
  not_returned max_pool force =
      rw (is_known, destroy_edu_in_vain, deactivate_edu_in_vain, return_edu)
        (if_cases (λ (x : Rc × Bool × Manager). x.1 ≡ false) _ _ _ (λ e. refl) (λ e. refl))

  pub same_or_else :
      (k : ℕ) (m' : Manager)
      → (k ≡ id → m' ≡ m)
      → (id ≢ k → find id m'.idle_queue ≡ find id m.idle_queue)
      → IsLost id m'
  same_or_else k m' here else' = elim (Bool-cases (k == id)) [
    | inl e ↦ subst (IsLost id) (sym (here (ground arith))) lost
    | inr e ↦ same_queue-IsLost id m m' (else' (λ h. absurd (ground (arith, h)))) lost
  ]

  -- A block is replaced where it stands.
  set_block-IsLost :
      (k : ℕ) (b' : Block) → (k ≡ id → is_idle b'.status ≡ false) → IsLost id (set_block k b' m)
  unfolding set_block
  set_block-IsLost k b' busy' = elim (Option-cases (find k m.run_queue)) [
    | inr (c, n) ↦ rw (n, set_block) lost
    | inl n ↦
        rw (n, set_block)
          (elim (Bool-cases (id == k)) [
            | inl e ↦
                let s : id ≡ k = ground arith in
                (
                  b',
                  subst (λ x. find x (set k b' m.idle_queue) ≡ some b') (sym s)
                      (find-set k b' m.idle_queue),
                  busy' (sym s),
                )
            | inr e ↦
                let (b, f, busy) = lost in
                (b, find-set_ne id k b' m.idle_queue (ground arith) ∙ f, busy)
          ])
  ]

  pub Similar-IsLost : (m' : Manager) → Similar m.idle_queue m'.idle_queue → IsLost id m'
  Similar-IsLost m' s = elim (s id) [
    | inl h ↦ same_queue-IsLost id m m' h lost
    | inr (c, h, h') ↦
        let (b, e, busy) = lost in
        let q : b ≡ c = cc in (forced c, h', subst (λ x. is_idle x.status ≡ false) q busy)
  ]

  -- The block of the EDU is not idle, also when it is looked up.
  known_busy : (k : ℕ) (c : Block) → get_edu_by_id m k ≡ some c → k ≡ id → is_idle c.status ≡ false
  known_busy k c n same =
      let h : get_edu_by_id m id ≡ some c = subst (λ x. get_edu_by_id m x ≡ some c) same n in
      let q : lost.0 ≡ c = let e = is_known in cc in
      subst (λ x. is_idle x.status ≡ false) q (lost.2)

  pub takes-IsLost : (k : ℕ) (arrived : List Event) → IsLost id (wait_edu_post k arrived m).2
  unfolding wait_edu_post
  takes-IsLost k arrived = elim (Option-cases (get_edu_by_id m k)) [
    | inl n ↦ rw (n, wait_edu_post) lost
    | inr (c, n) ↦
        rw (n, wait_edu_post)
          (set_block-IsLost k (wait_event arrived c).1 λ same.
            elim (wait_event-Waited arrived c).status [
              | inl s ↦ rw s (known_busy k c n same)
              | inr (inl s) ↦ rw s refl
              | inr (inr s) ↦ rw s refl
            ])
  ]

  pub posts-IsLost : (k : ℕ) (e : Event) → IsLost id (post_edu_post k e m).1
  unfolding post_edu_post
  posts-IsLost k e = elim (Option-cases (get_edu_by_id m k)) [
    | inl n ↦ rw (n, post_edu_post) lost
    | inr (c, n) ↦ rw (n, post_edu_post) (set_block-IsLost k (post_event e c) (known_busy k c n))
  ]

  pub launches-IsLost : (made : Bool) (arg k : ℕ) → IsLost id (launch_edu made arg k m).1
  unfolding launch_edu
  launches-IsLost false arg k = lost
  launches-IsLost true arg k = elim (Option-cases (get_edu_by_id m k)) [
    | inl n ↦ rw (n, launch_edu) lost
    | inr (c, n) ↦
        rw (n, launch_edu) (set_block-IsLost k (post_event (resume_event arg) c) (known_busy k c n))
  ]

  pub enters-IsLost :
      (t : EduType) (k : ℕ) (m' : Manager) → enter_edu t m ≡ some (k, m') → IsLost id m'
  unfolding enter_edu
  enters-IsLost t k m' e = elim (Option-cases (get_edu_by_id m m.next_id)) [
    | inl n ↦
        let h = rw (n, enter_edu) at e in
        subst (λ o. IsLost id (elim o [ none ↦ m | some (_, x) ↦ x ])) h lost
    | inr (b, n) ↦ let h : none ≡ some (k, m') = rw (n, enter_edu) at e in cc
  ]
