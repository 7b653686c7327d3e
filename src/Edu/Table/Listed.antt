-- ===== src/Edu/Table/Listed.antt =====
-- The "EDU Status Transition Table" at the top of pmd/pmdEDUMgr.cpp, read as what an operation is to do.
use emeralddb_src.Base.{ℕ, ◌≡◌, refl, subst, inl, inr, true, false, Option, none, some}
use emeralddb_src.Core.{Rc, ok, sys, edu_inval_status, is_error}
use emeralddb_src.Edu.OrderedMap.{find}
use emeralddb_src.Edu.Block.{Block, idle, is_idle}
use emeralddb_src.Edu.Manager.{Manager, get_edu_by_id, wait_edu, activate_edu, destroy_edu}
use emeralddb_src.Edu.Invariant.{IsManager}
use emeralddb_src.Edu.Change.{Change, Change-before}
use emeralddb_src.Edu.Table.{
  Row, row_activate, row_wait, row_deactivate, row_destroy, has_move, target, status_of, IsMissing,
  idle_lookup, Outcome, missing, refused, moved, there, astray, pooled, activate_edu-Outcome,
  wait_edu-Outcome, destroy_edu-Outcome,
}

-- What the table says of an operation on the block `b` of an EDU: its status moves; it is where the row takes it
-- already; or the operation fails and changes nothing.
pub data OnTable (row : Row) (m : Manager) (id : ℕ) (b : Block) : Rc × Manager → Type 0 where
  moves :
      {c : Option Block} {m' : Manager}
      → has_move row b.status ≡ true
      → Change m id b c m'
      → status_of c ≡ target row
      → OnTable row m id b (ok, m')
  keeps : some b.status ≡ target row → OnTable row m id b (ok, m)
  refuses :
      (rc : Rc)
      → is_error rc ≡ true
      → has_move row b.status ≡ false
      → (some b.status ≡ target row → ⊥)
      → OnTable row m id b (rc, m)

module _ (m : Manager) (valid : IsManager m) (id : ℕ) (b : Block) where
  module _ (known : get_edu_by_id m id ≡ some b)
      (at_rest : find id m.idle_queue ≡ some b → b.status ≡ idle) where
    in_idle : find id m.run_queue ≡ none → find id m.idle_queue ≡ some b
    unfolding get_edu_by_id
    in_idle n = rw (n, get_edu_by_id) at known

    missing-OnTable : (row : Row) → IsMissing row m id → OnTable row m id b (sys, m)
    missing-OnTable row_activate n = absurd cc
    missing-OnTable row_wait n =
        let s = at_rest (in_idle n) in refuses sys refl (rw s refl) (rw s λ e. cc)
    missing-OnTable row_deactivate n = absurd cc
    missing-OnTable row_destroy n = absurd cc

    Outcome-OnTable :
        (row : Row) {r : Rc × Manager}
        → Outcome row m id r
        → (row ≡ row_deactivate → ⊥)
        → OnTable row m id b r
    Outcome-OnTable row (missing n) other = missing-OnTable row n
    Outcome-OnTable row (refused c e h n) other =
        let q : c ≡ b = cc in
        refuses edu_inval_status refl (subst (λ x. has_move row x.status ≡ false) q h)
          (subst (λ x. some x.status ≡ target row → ⊥) q n)
    Outcome-OnTable row (moved {b = c} {c = d} {m' = m'} change h t) other =
        let e = Change-before m valid id change in
        let q : c ≡ b = cc in
        moves (subst (λ x. has_move row x.status ≡ true) q h)
          (subst (λ x. Change m id x d m') q change) t
    Outcome-OnTable row (there c e h) other =
        let q : c ≡ b = cc in keeps (subst (λ x. some x.status ≡ target row) q h)
    Outcome-OnTable row (astray c e busy) other =
        let n : find id m.run_queue ≡ none = elim (valid.apart id) [ inl k ↦ k | inr k ↦ cc ] in
        let k : get_edu_by_id m id ≡ some c = idle_lookup m id c n e in
        let q : c ≡ b = cc in
        let s : b.status ≡ idle = at_rest (subst (λ x. find id m.idle_queue ≡ some x) q e) in
        let busy' : is_idle b.status ≡ false = subst (λ x. is_idle x.status ≡ false) q busy in
        let i : is_idle b.status ≡ true = rw s refl in absurd cc
    Outcome-OnTable row (pooled c d e) other = absurd (other d)

  -- On a well-formed manager, for an EDU that it has, which is idle if it is in the idle queue,
  -- activateEDU, waitEDU and _destroyEDU do what the row to RUNNING, to WAITING or to DESTROY of
  -- the transition table says of its status: where the row lists a move, EDB_OK and the EDU is
  -- where the row takes it, the other EDUs being as before; where the EDU is there already, EDB_OK
  -- and nothing changes; else an error and nothing changes.
  pub operations-OnTable :
      get_edu_by_id m id ≡ some b
      → (find id m.idle_queue ≡ some b → b.status ≡ idle)
      → OnTable row_activate m id b (activate_edu id m)
        × OnTable row_wait m id b (wait_edu id m)
        × OnTable row_destroy m id b (destroy_edu id m)
  operations-OnTable known at_rest = (
    Outcome-OnTable known at_rest row_activate (activate_edu-Outcome m valid id) (λ e. cc),
    Outcome-OnTable known at_rest row_wait (wait_edu-Outcome m valid id) (λ e. cc),
    Outcome-OnTable known at_rest row_destroy (destroy_edu-Outcome m valid id) (λ e. cc),
  )
