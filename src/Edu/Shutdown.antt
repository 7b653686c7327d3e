-- ===== src/Edu/Shutdown.antt =====
-- pmd/pmdEDUMgr.cpp: _destroyAll, which forces the threads until they are gone.
pub mod Empties
use emeralddb_src.Base.{
  ℕ, ◌+◌, ◌%◌, ◌≡◌, refl, sym, ◌∙◌, subst, ◌⊎◌, inl, inr, Bool, true, false, List, [], ◌∷◌, Option,
  none, some, ◌==◌, if◌then◌else◌, if_cases, length, arith, Bool-cases,
}
use emeralddb_src.Core.{Rc, ok}
use emeralddb_src.Edu.OrderedMap.{OrderedMap, find}
use emeralddb_src.Edu.Block.{Block}
use emeralddb_src.Edu.Manager.{Manager, size}
use emeralddb_src.Edu.Force.{
  Property, forced, force_all, with_user, edu_user, edu_all, force_edus, get_edu_count,
  count_chosen, concerns, is_system_edu,
}

-- A loop of _destroyAll over what the other threads do while it sleeps; `none` if EDUs are left after that.
unfoldable pub destroy_loop : Property → List (Manager → Manager) → ℕ → Manager → Option Manager
destroy_loop p [] counter m = if get_edu_count p m == 0 then some m else none
destroy_loop p (others ∷ rest) counter m =
    let forced = if counter % 50 == 0 then force_edus p m else m in
    let later = destroy_loop p rest ((counter + 1) % 4294967296) (others forced) in
    if get_edu_count p m == 0 then some m else later

-- _setDestroyed ( true ) and setQuiesced ( true )
abbrev pub close_down : Manager → Manager
close_down m = record m { is_destroyed = true; is_quiesced = true }

-- _destroyAll
unfoldable pub destroy_all :
    List (Manager → Manager) → List (Manager → Manager) → Manager → Option (Rc × Manager)
destroy_all users all m = elim (destroy_loop edu_user users 0 (close_down m)) [
  | none ↦ none
  | some m' ↦ elim (destroy_loop edu_all all 0 m') [ none ↦ none | some m'' ↦ some (ok, m'') ]
]
