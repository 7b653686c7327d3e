-- ===== src/Edu/Force.antt =====
-- pmd/pmdEDUMgr.cpp: forcing EDUs to stop, counting them, and the list of system EDUs.
use emeralddb_src.Base.{
  ℕ, ◌+◌, ◌%◌, Bool, true, false, not, ◌&&◌, ◌||◌, [], ◌∷◌, Option, none, some, ◌==◌, if◌then◌else◌,
}
use emeralddb_src.Core.{Rc, ok, pmd_force_system_edu}
use emeralddb_src.Edu.OrderedMap.{OrderedMap, find, set}
use emeralddb_src.Edu.Block.{Block, EduType, agent, tcp_listener, unknown}
use emeralddb_src.Edu.Manager.{Manager}

-- EDU_SYSTEM, EDU_USER and EDU_ALL
pub data Property : Type 0 where
  edu_system edu_user edu_all : Property

abbrev pub with_system : Property → Bool
with_system edu_system = true
with_system edu_user = false
with_system edu_all = true

abbrev pub with_user : Property → Bool
with_user edu_system = false
with_user edu_user = true
with_user edu_all = true

abbrev pub type_index : EduType → ℕ
type_index tcp_listener = 0
type_index agent = 1
type_index unknown = 2

-- regSystemEDU
unfoldable pub reg_system_edu : EduType → ℕ → Manager → Manager
reg_system_edu t id m = record m { system_edus = set (type_index t) id m.system_edus }

-- getSystemEDU
unfoldable pub get_system_edu : EduType → Manager → ℕ
get_system_edu t m = elim (find (type_index t) m.system_edus) [ none ↦ 0 | some id ↦ id ]

-- The loop of _isSystemEDU.
unfoldable pub is_among : ℕ → OrderedMap ℕ → Bool
is_among id [] = false
is_among id ((t, k) ∷ rest) = if id == k then true else is_among id rest

-- _isSystemEDU
abbrev pub is_system_edu : Manager → ℕ → Bool
is_system_edu m id = is_among id m.system_edus

-- force ()
abbrev pub forced : Block → Block
forced b = record b { is_forced = true }

-- A loop of forceUserEDU over a queue: the first block with the id is forced, `none` if there is none.
unfoldable pub force_in : ℕ → OrderedMap Block → Option (OrderedMap Block)
force_in id [] = none
force_in id ((k, b) ∷ rest) =
    let later = force_in id rest in
    if b.id == id
    then some ((k, forced b) ∷ rest)
    else elim later [ none ↦ none | some rest' ↦ some ((k, b) ∷ rest') ]

-- forceUserEDU
unfoldable pub force_user_edu : ℕ → Manager → Rc × Manager
force_user_edu id m =
    if is_system_edu m id then (pmd_force_system_edu, m) else elim (force_in id m.run_queue) [
      | some queue ↦ (ok, record m { run_queue = queue })
      | none ↦ elim (force_in id m.idle_queue) [
        | some queue ↦ (ok, record m { idle_queue = queue })
        | none ↦ (ok, m)
      ]
    ]

-- The condition of _forceEDUs and _getEDUCount on a thread of the run queue.
abbrev pub concerns : Property → Manager → ℕ → Bool
concerns p m id = (with_system p && is_system_edu m id) || (with_user p && not (is_system_edu m id))

-- A loop of _forceEDUs over a queue.
unfoldable pub force_all : (ℕ → Bool) → OrderedMap Block → OrderedMap Block
force_all chosen [] = []
force_all chosen ((id, b) ∷ rest) = (id, if chosen id then forced b else b) ∷ force_all chosen rest

-- _forceEDUs
unfoldable pub force_edus : Property → Manager → Manager
force_edus p m = record m {
  run_queue = force_all (concerns p m) m.run_queue;
  idle_queue = force_all (λ _. with_user p) m.idle_queue;
}

-- A loop of _getEDUCount over a queue.
unfoldable pub count_chosen : (ℕ → Bool) → OrderedMap Block → ℕ
count_chosen chosen [] = 0
count_chosen chosen ((id, b) ∷ rest) = (if chosen id then 1 else 0) + count_chosen chosen rest

-- _getEDUCount
unfoldable pub get_edu_count : Property → Manager → ℕ
get_edu_count p m =
    (count_chosen (concerns p m) m.run_queue + count_chosen (λ _. with_user p) m.idle_queue)
    % 4294967296
