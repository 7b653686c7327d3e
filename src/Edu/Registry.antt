-- ===== src/Edu/Registry.antt =====
-- pmd/pmdEDU.cpp: the names of the EDU types, the types of system EDUs, and the table of the main functions.
use Prim.Native.String.{String}
use emeralddb_src.Base.{
  ap, sym, subst, arith, ◌≡◌, refl, ◌≢◌, Bool, true, false, List, [], ◌∷◌, Option, none, some,
  if◌then◌else◌,
}
use emeralddb_src.Core.{Rc, ok, sys}
use emeralddb_src.Edu.OrderedMap.{OrderedMap, find, set, find-set, find-set_ne}
use emeralddb_src.Edu.Block.{EduType, tcp_listener, agent, unknown}
use emeralddb_src.Edu.Force.{type_index}
use emeralddb_src.Edu.Pool.{has_entry_func}

-- pmdAgentEntryPoint and pmdTcpListenerEntryPoint, as values of pmdEntryPoint
pub data EntryFunc : Type 0 where
  serves listens : EntryFunc

-- _eduEntryInfo
pub record EntryInfo : Type 0 where
  pub edu_type : EduType
  pub reg_result : Rc
  pub entry_func : Option EntryFunc

-- mapEDUName, mapEDUTypeSys, and the static array of getEntryFuncByType, which the first call makes
pub record Registry : Type 0 where
  pub names : OrderedMap String
  pub system_types : OrderedMap EduType
  pub entry : Option (List EntryInfo)

abbrev pub new_registry : Registry
new_registry = record { names = []; system_types = []; entry = none }

-- registerEDUName, with what stands under the type
unfoldable pub enter_name : EduType → String → Bool → Registry → Option String → Rc × Registry
enter_name t name system r (some taken) = (sys, r)
enter_name t name system r none =
    let named = set (type_index t) name r.names in
    if system
    then (ok, record r { names = named; system_types = set (type_index t) t r.system_types })
    else (ok, record r { names = named })

-- registerEDUName
unfoldable pub register_edu_name : EduType → String → Bool → Registry → Rc × Registry
register_edu_name t name system r = enter_name t name system r (find (type_index t) r.names)

-- getEDUName
unfoldable pub get_edu_name : EduType → Registry → String
get_edu_name t r = elim (find (type_index t) r.names) [ none ↦ "Unknown" | some name ↦ name ]

-- isSystemEDU
unfoldable pub is_system_type : EduType → Registry → Bool
is_system_type t r = elim (find (type_index t) r.system_types) [ none ↦ false | some u ↦ true ]

-- ON_EDUTYPE_TO_ENTRY1
unfoldable pub to_entry :
    EduType → Bool → Option EntryFunc → String → Registry → EntryInfo × Registry
to_entry t system f name r =
    let (rc, r') = register_edu_name t name system r in
    (record { edu_type = t; reg_result = rc; entry_func = f }, r')

-- The static array
unfoldable pub make_entries : Registry → List EntryInfo × Registry
make_entries r =
    let (a, r1) = to_entry agent false (some serves) "Agent" r in
    let (l, r2) = to_entry tcp_listener true (some listens) "TCPListener" r1 in
    let (u, r3) = to_entry unknown false none "Unknown" r2 in (a ∷ l ∷ u ∷ [], r3)

abbrev pub same_type : EduType → EduType → Bool
same_type tcp_listener tcp_listener = true
same_type agent agent = true
same_type unknown unknown = true
same_type _ _ = false

-- The loop of getEntryFuncByType
unfoldable pub find_entry : EduType → List EntryInfo → Option EntryFunc
find_entry t [] = none
find_entry t (e ∷ rest) = if same_type e.edu_type t then e.entry_func else find_entry t rest

-- getEntryFuncByType, with the array if it was made before
unfoldable pub find_or_make :
    EduType → Registry → Option (List EntryInfo) → Option EntryFunc × Registry
find_or_make t r (some table) = (find_entry t table, r)
find_or_make t r none =
    let (table, r') = make_entries r in (find_entry t table, record r' { entry = some table })

-- getEntryFuncByType
unfoldable pub get_entry_func_by_type : EduType → Registry → Option EntryFunc × Registry
get_entry_func_by_type t r = find_or_make t r r.entry

-- A type that has a name keeps it and everything else, with EDB_SYS; one without gets the name with EDB_OK, is a
-- system type from then on if that is asked for, and the names of the other types are kept.
abbrev pub Registered : EduType → String → Bool → Registry → Option String → Rc × Registry → Type 0
Registered t name system r (some taken) (rc, r') = (rc ≡ sys) × (r' ≡ r)
Registered t name system r none (rc, r') =
    (rc ≡ ok)
    × (get_edu_name t r' ≡ name)
    × ((u : EduType) → type_index u ≢ type_index t → get_edu_name u r' ≡ get_edu_name u r)
    × (system ≡ true → is_system_type t r' ≡ true)

enter_name-Registered :
    (t : EduType) (name : String) (system : Bool) (r : Registry) (before : Option String)
    → Registered t name system r before (enter_name t name system r before)
unfolding enter_name get_edu_name is_system_type
enter_name-Registered t name system r (some taken) = (refl, refl)
enter_name-Registered t name false r none = (
  refl,
  rw (find-set (type_index t) name r.names, get_edu_name) refl,
  (λ u ne. rw (find-set_ne (type_index u) (type_index t) name r.names ne, get_edu_name) refl),
  (λ e. absurd (grind arith)),
)
enter_name-Registered t name true r none = (
  refl,
  rw (find-set (type_index t) name r.names, get_edu_name) refl,
  (λ u ne. rw (find-set_ne (type_index u) (type_index t) name r.names ne, get_edu_name) refl),
  (λ e. rw (find-set (type_index t) t r.system_types, is_system_type) refl),
)

-- registerEDUName of a type that has a name returns EDB_SYS and changes nothing. Of another it returns EDB_OK, and
-- the type has the name then, is a system type if that was asked for, and the other types have the names they had.
pub register_edu_name-Registered :
    (t : EduType) (name : String) (system : Bool) (r : Registry)
    → Registered t name system r (find (type_index t) r.names) (register_edu_name t name system r)
unfolding register_edu_name
register_edu_name-Registered t name system r =
    enter_name-Registered t name system r (find (type_index t) r.names)

-- Whether a pmdEntryPoint is not NULL
abbrev pub has_func : Option EntryFunc → Bool
has_func none = false
has_func (some f) = true

-- The functions of the array
abbrev pub entry_func_of : EduType → Option EntryFunc
entry_func_of agent = some serves
entry_func_of tcp_listener = some listens
entry_func_of unknown = none

find_entry-make_entries :
    (t : EduType) (r : Registry) → find_entry t (make_entries r).0 ≡ entry_func_of t
unfolding find_entry make_entries to_entry
find_entry-make_entries agent r = refl
find_entry-make_entries tcp_listener r = refl
find_entry-make_entries unknown r = refl

-- In the call that makes the array, getEntryFuncByType finds the function of the array.
pub get_entry_func_by_type-entry_func_of :
    (t : EduType) (r : Registry) → r.entry ≡ none → (get_entry_func_by_type t r).0 ≡ entry_func_of t
unfolding get_entry_func_by_type find_or_make
get_entry_func_by_type-entry_func_of t r e =
    subst (λ o. (find_or_make t r o).0 ≡ entry_func_of t) (sym e) (find_entry-make_entries t r)

-- In that call, getEntryFuncByType finds a function for just the types that _createNewEDU accepts.
pub get_entry_func_by_type-has_entry_func :
    (t : EduType) (r : Registry)
    → r.entry ≡ none
    → has_func (get_entry_func_by_type t r).0 ≡ has_entry_func t
get_entry_func_by_type-has_entry_func agent r e =
    ap has_func (get_entry_func_by_type-entry_func_of agent r e)
get_entry_func_by_type-has_entry_func tcp_listener r e =
    ap has_func (get_entry_func_by_type-entry_func_of tcp_listener r e)
get_entry_func_by_type-has_entry_func unknown r e =
    ap has_func (get_entry_func_by_type-entry_func_of unknown r e)
