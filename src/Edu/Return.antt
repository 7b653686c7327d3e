-- ===== src/Edu/Return.antt =====
-- returnEDU and startEDU of pmd/pmdEDUMgr.cpp.
use emeralddb_src.Base.{
  ℕ, ◌≡◌, refl, ap, subst, ◌∙◌, ◌≢◌, inl, inr, Bool, true, false, not, ◌||◌, Option, none, some,
  ltb, Bool-cases, Option-cases,
}
use emeralddb_src.Core.{Rc, ok, sys}
use emeralddb_src.Edu.OrderedMap.{find, find-set}
use emeralddb_src.Edu.Block.{
  Block, EduType, EduStatus, agent, tcp_listener, unknown, idle, is_idle, is_poolable,
}
use emeralddb_src.Edu.Manager.{Manager, size, get_edu_by_id}
use emeralddb_src.Edu.Pool.{return_edu}
use emeralddb_src.Edu.Invariant.{IsManager}
use emeralddb_src.Edu.Change.{
  Change, rests, updates_run, updates_idle, wakes, leaves_run, leaves_idle, Change-after,
  Change-others,
}
use emeralddb_src.Edu.Table.{
  status_of, row_destroy, row_deactivate, Outcome, missing, refused, moved, there, astray, pooled,
  destroy_edu-Outcome, deactivate_edu-Outcome,
}

-- The other EDUs are as before.
abbrev pub SameOthers : Manager → ℕ → Manager → Type 0
SameOthers m id m' = (k : ℕ) → k ≢ id → get_edu_by_id m' k ≡ get_edu_by_id m k

-- What returnEDU promises the thread of a registered EDU: it is told that it is destroyed only once the
-- manager has it no more, it is told that it is pooled only when it is in the idle queue, and any
-- other answer leaves the manager as it was.
abbrev pub Returned : Manager → ℕ → Rc × Bool × Manager → Type 0
Returned m id (rc, true, m') = (rc ≡ ok) × (get_edu_by_id m' id ≡ none) × SameOthers m id m'
Returned m id (ok, false, m') =
    ((b : Block) × (find id m'.idle_queue ≡ some b)) × SameOthers m id m'
Returned m id (_, false, m') = m' ≡ m

poolable_of : (t : EduType) (x y z : Bool) → not (is_poolable t) || x || y || z ≡ false → t ≡ agent
poolable_of agent x y z e = refl
poolable_of tcp_listener x y z e = cc
poolable_of unknown x y z e = cc

not_both : (s : EduStatus) → s ≡ idle → is_idle s ≡ false → ⊥
not_both s e n = let h : is_idle idle ≡ false = subst (λ x. is_idle x ≡ false) e n in cc

module _ (m : Manager) (valid : IsManager m) (id : ℕ) (b : Block)
    (known : get_edu_by_id m id ≡ some b) where
  by_destroy :
      {r : Rc × Manager}
      → Outcome row_destroy m id r
      → Returned m id (r.0, elim r.0 [ ok ↦ true | sys ↦ true | _ ↦ false ], r.1)
  by_destroy (missing n) = absurd (cc)
  by_destroy (refused c _ _ _) = refl
  by_destroy (moved {c = none} c h t) =
      (refl, Change-after m valid id c, Change-others m valid id c)
  by_destroy (moved {c = some d} c h t) = cc
  by_destroy (there c e t) = cc
  by_destroy (astray c _ _) = refl
  by_destroy (pooled c e _) = absurd cc

  pooled_after :
      {a : Block} {c : Option Block} {m' : Manager}
      → Change m id a c m'
      → status_of c ≡ some idle
      → (d : Block) × (find id m'.idle_queue ≡ some d)
  pooled_after (updates_run a c e i s) t =
      let h : c.status ≡ idle = cc in absurd (not_both c.status h s)
  pooled_after (updates_idle a c e i u s) t = (c, find-set id c m.idle_queue)
  pooled_after (wakes a c e i s) t = let h : c.status ≡ idle = cc in absurd (not_both c.status h s)
  pooled_after (rests a c e i u s) t = (c, find-set id c m.idle_queue)
  pooled_after (leaves_run a tids e) t = cc
  pooled_after (leaves_idle a tids e) t = cc

  pooled_there :
      (c : Block)
      → get_edu_by_id m id ≡ some c
      → some c.status ≡ some idle
      → (d : Block) × (find id m.idle_queue ≡ some d)
  unfolding get_edu_by_id
  pooled_there c e t = elim (Option-cases (find id m.run_queue)) [
    | inl n ↦ let h : find id m.idle_queue ≡ some c = rw (n, get_edu_by_id) at e in (c, h)
    | inr (d, k) ↦
        let h : some d ≡ some c = rw (k, get_edu_by_id) at e in
        let same : d ≡ c = cc in
        let rests : c.status ≡ idle = cc in
        absurd (not_both d.status (ap (λ x. x.status) same ∙ rests) (valid.runs id d k).not_idle)
  ]

  by_deactivate :
      {r : Rc × Manager}
      → Outcome row_deactivate m id r
      → Returned m id (r.0, elim r.0 [ sys ↦ true | _ ↦ false ], r.1)
  by_deactivate (missing n) = absurd cc
  by_deactivate (refused c _ _ _) = refl
  by_deactivate (moved c h t) = (pooled_after c t, Change-others m valid id c)
  by_deactivate (there c e t) = (pooled_there c e t, λ k n. refl)
  by_deactivate (astray c _ _) = refl
  by_deactivate (pooled c e f) = ((c, f), λ k n. refl)

  return_edu_known : (max_pool : ℕ) (force : Bool) → Returned m id (return_edu max_pool id force m)
  unfolding return_edu
  return_edu_known max_pool force =
      elim (Bool-cases
        (not (is_poolable b.edu_type) || force || m.is_destroyed || ltb max_pool (size m))) [
          | inl out ↦ rw (known, out, return_edu) (by_destroy (destroy_edu-Outcome m valid id))
          | inr keep ↦
              rw (known, keep, return_edu)
                (by_deactivate (
                  deactivate_edu-Outcome m valid id λ c e.
                    let same : b ≡ c = cc in
                    subst (λ x. x.edu_type ≡ agent) same
                      (poolable_of b.edu_type force m.is_destroyed (ltb max_pool (size m)) keep)))
        ]

-- On a well-formed manager, `returnEDU` of a registered EDU keeps the promise of `Returned`.
pub return_edu-Returned :
    (max_pool : ℕ) (force : Bool) (m : Manager) (id : ℕ) (b : Block)
    → IsManager m
    → get_edu_by_id m id ≡ some b
    → Returned m id (return_edu max_pool id force m)
return_edu-Returned max_pool force m id b valid known =
    return_edu_known m valid id b known max_pool force
