-- ===== src/Edu/Started.antt =====
-- startEDU of pmd/pmdEDUMgr.cpp takes steps of the manager.
use emeralddb_src.Base.{
  ℕ, ◌+◌, ◌<◌, ◌≡◌, refl, inl, inr, Bool, true, false, not, ◌||◌, Option, if_cases, Bool-cases,
  Option-cases,
}
use emeralddb_src.Core.{Rc}
use emeralddb_src.Edu.Block.{EduType, is_poolable}
use emeralddb_src.Edu.Manager.{Manager}
use emeralddb_src.Edu.Pool.{
  start_edu, create_new_edu, enter_edu, first_idle, has_entry_func, is_empty,
}
use emeralddb_src.Edu.Step.{Reachable, then_step, enters, launches, reuses}

-- The next id does not wrap.
abbrev pub HasIds : Manager → Type 0
HasIds m = m.next_id + 1 < 18446744073709551616

create_new_edu-Reachable :
    (allocated made : Bool) (t : EduType) (arg : ℕ) (m : Manager)
    → HasIds m
    → Reachable m
    → Reachable (create_new_edu allocated made t arg m).2
unfolding create_new_edu
create_new_edu-Reachable allocated made t arg m ids r =
    let P : Rc × Option ℕ × Manager → Type 0 = λ x. Reachable x.2 in
    if_cases P m.is_quiesced _ _ (λ e. r)
      λ e.
        if_cases P (not (has_entry_func t)) _ _ (λ e. r)
          λ e.
            if_cases P (not allocated) _ _ (λ e. r)
              λ e. elim (Option-cases (enter_edu t m)) [
                | inl n ↦ rw n r
                | inr ((id, m'), n) ↦
                    rw n (then_step (then_step r (enters t id m' ids n)) (launches made arg id))
              ]

poolable : (x y : Bool) → x || not y ≡ false → y ≡ true
poolable x true e = refl
poolable true false e = cc
poolable false false e = cc

pub start_edu-Reachable :
    (allocated made : Bool) (t : EduType) (arg : ℕ) (m : Manager)
    → HasIds m
    → Reachable m
    → Reachable (start_edu allocated made t arg m).2
unfolding start_edu
start_edu-Reachable allocated made t arg m ids r =
    let P : Rc × Option ℕ × Manager → Type 0 = λ x. Reachable x.2 in
    let new = create_new_edu-Reachable allocated made t arg m ids r in
    if_cases P m.is_quiesced _ _ (λ e. r)
      λ e. elim (Bool-cases (is_empty m.idle_queue || not (is_poolable t))) [
        | inl n ↦ rw n new
        | inr pool ↦ elim (Option-cases (first_idle m.idle_queue)) [
          | inl n ↦ rw (pool, n) new
          | inr ((id, b), n) ↦
              rw (pool, n)
                (then_step r
                  (reuses t arg id b (poolable (is_empty m.idle_queue) (is_poolable t) pool) n))
        ]
      ]
