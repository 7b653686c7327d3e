-- ===== src/Edu/Shutdown/Empties.antt =====
-- When _destroyAll of pmd/pmdEDUMgr.cpp returns.
use emeralddb_src.Base.{
  ℕ, ◌%◌, ◌≡◌, refl, sym, ◌∙◌, subst, ◌⊎◌, inl, inr, Bool, true, false, List, [], ◌∷◌, Option, none,
  some, ◌==◌, if◌then◌else◌, if_cases, length, arith, Bool-cases,
}
use emeralddb_src.Core.{Rc, ok}
use emeralddb_src.Edu.OrderedMap.{OrderedMap, find}
use emeralddb_src.Edu.Block.{Block}
use emeralddb_src.Edu.Manager.{Manager, size}
use emeralddb_src.Edu.Force.{
  Property, forced, force_all, with_user, edu_user, edu_all, force_edus, get_edu_count,
  count_chosen, concerns, is_system_edu,
}
use emeralddb_src.Edu.Shutdown.{destroy_loop, close_down, destroy_all}

-- What other threads do while the loop sleeps, once the manager is destroyed and quiesced: no EDU comes into a
-- queue, and one that is forced stays forced.
abbrev pub Shrinks : OrderedMap Block → OrderedMap Block → Type 0
Shrinks q q' =
    (k : ℕ) (b : Block)
    → find k q' ≡ some b
    → (c : Block) × (find k q ≡ some c) × (c.is_forced ≡ true → b.is_forced ≡ true)

-- Those that were forced are gone.
abbrev pub Cleared : OrderedMap Block → OrderedMap Block → Type 0
Cleared q q' =
    (k : ℕ) (b : Block)
    → find k q' ≡ some b
    → (c : Block) × (find k q ≡ some c) × (c.is_forced ≡ false)

abbrev pub IsClosed : Manager → Type 0
IsClosed m = (m.is_destroyed ≡ true) × (m.is_quiesced ≡ true)

abbrev pub Obeys : (Manager → Manager) → Type 0
Obeys others =
    (m : Manager)
    → IsClosed m
    → IsClosed (others m)
      × ((others m).system_edus ≡ m.system_edus)
      × Shrinks m.run_queue (others m).run_queue
      × Shrinks m.idle_queue (others m).idle_queue

abbrev pub Clears : (Manager → Manager) → Type 0
Clears others =
    (m : Manager)
    → IsClosed m
    → Cleared m.run_queue (others m).run_queue × Cleared m.idle_queue (others m).idle_queue

-- In some round the EDUs that are forced leave.
abbrev pub Leave : List (Manager → Manager) → Type 0
Leave [] = ⊥
Leave (others ∷ rest) = Obeys others × (Clears others ⊎ Leave rest)

-- The EDUs that _forceEDUs is to force are forced.
abbrev AllForced : Property → Manager → Type 0
AllForced p m =
    ((k : ℕ) (b : Block) → find k m.run_queue ≡ some b → concerns p m k ≡ true → b.is_forced ≡ true)
    × ((k : ℕ) (b : Block) → find k m.idle_queue ≡ some b → b.is_forced ≡ true)

force_all_forces :
    (chosen : ℕ → Bool) (q : OrderedMap Block) (k : ℕ) (b : Block)
    → find k (force_all chosen q) ≡ some b
    → chosen k ≡ true
    → b.is_forced ≡ true
unfolding force_all find
force_all_forces chosen [] k b e c = cc
force_all_forces chosen ((id, a) ∷ rest) k b e c = elim (Bool-cases (id == k)) [
  | inr n ↦ force_all_forces chosen rest k b (rw (n, find) at e) c
  | inl h ↦
      let same : id ≡ k = ground arith in
      let c' : chosen id ≡ true = subst (λ x. chosen x ≡ true) (sym same) c in
      let f : some (forced a) ≡ some b = rw (h, c', find) at e in
      let d : forced a ≡ b = cc in subst (λ x. x.is_forced ≡ true) d refl
]

force_edus-AllForced :
    (p : Property) (m : Manager) → with_user p ≡ true → AllForced p (force_edus p m)
unfolding force_edus
force_edus-AllForced p m user = (
  (λ k b e c. force_all_forces (concerns p m) m.run_queue k b e c),
  (λ k b e. force_all_forces (λ _. with_user p) m.idle_queue k b e user),
)

found : (id : ℕ) (b : Block) (rest : OrderedMap Block) → find id ((id, b) ∷ rest) ≡ some b
unfolding find
found id b rest = ground arith

count_none :
    (chosen : ℕ → Bool) (q : OrderedMap Block)
    → ((k : ℕ) (b : Block) → find k q ≡ some b → chosen k ≡ false)
    → count_chosen chosen q ≡ 0
unfolding count_chosen find
count_none chosen [] h = refl
count_none chosen ((id, b) ∷ rest) h =
    let here : chosen id ≡ false = h id b (found id b rest) in
    let none_later = count_none chosen rest later in rw here (omega (arith, none_later))
  where
    later : (k : ℕ) (c : Block) → find k rest ≡ some c → chosen k ≡ false
    later k c e = elim (Bool-cases (id == k)) [
      | inl s ↦ h k b (rw (s, find) refl)
      | inr n ↦ h k c (rw (n, find) e)
    ]

module _ (p : Property) (user : with_user p ≡ true) where
  -- The result of a loop: no EDU is counted, and the manager is closed down.
  abbrev NoneLeft : Option Manager → Type 0
  NoneLeft none = ⊥
  NoneLeft (some m) = (get_edu_count p m ≡ 0) × IsClosed m

  module _ (m : Manager) (others : Manager → Manager) (all : AllForced p m)
      (closed : IsClosed m) where
    concerns_same :
        (k : ℕ) → (others m).system_edus ≡ m.system_edus → concerns p (others m) k ≡ concerns p m k
    concerns_same k e = rw e refl

    kept-AllForced : Obeys others → AllForced p (others m)
    kept-AllForced obeys =
        let (closed', system, run, idle) = obeys m closed in
        (
          (λ k b e c.
              let (a, f, stays) = run k b e in
              stays (all.0 k a f (sym (concerns_same k system) ∙ c))),
          (λ k b e. let (a, f, stays) = idle k b e in stays (all.1 k a f)),
        )

    cleared_count : Obeys others → Clears others → get_edu_count p (others m) ≡ 0
    unfolding get_edu_count
    cleared_count obeys clears =
        let (closed', system, run, idle) = obeys m closed in
        let (run', idle') = clears m closed in
        let none_runs : (k : ℕ) (b : Block)
            → find k (others m).run_queue ≡ some b
            → concerns p (others m) k ≡ false =
          λ k b e. elim (Bool-cases (concerns p (others m) k)) [
            | inr n ↦ n
            | inl c ↦
                let (a, f, free) = run' k b e in
                let t = all.0 k a f (sym (concerns_same k system) ∙ c) in absurd cc
          ] in
        let none_idle : (k : ℕ) (b : Block)
            → find k (others m).idle_queue ≡ some b
            → with_user p ≡ false =
          λ k b e. let (a, f, free) = idle' k b e in let t = all.1 k a f in absurd cc in
        let x = count_none (concerns p (others m)) (others m).run_queue none_runs in
        let y = count_none (λ _. with_user p) (others m).idle_queue none_idle in omega (arith, x, y)

  stops-NoneLeft :
      (rest : List (Manager → Manager)) (counter : ℕ) (m : Manager)
      → get_edu_count p m ≡ 0
      → IsClosed m
      → NoneLeft (destroy_loop p rest counter m)
  unfolding destroy_loop
  stops-NoneLeft [] counter m e closed =
      if_cases NoneLeft (get_edu_count p m == 0) _ _ (λ h. (e, closed)) (λ h. absurd (ground arith))
  stops-NoneLeft (others ∷ rest) counter m e closed =
      if_cases NoneLeft (get_edu_count p m == 0) _ _ (λ h. (e, closed)) (λ h. absurd (ground arith))

  -- The manager after the test of the counter
  after_force-AllForced :
      (counter : ℕ) (m : Manager)
      → (counter ≡ 0) ⊎ AllForced p m
      → IsClosed m
      → AllForced p (if counter % 50 == 0 then force_edus p m else m)
        × IsClosed (if counter % 50 == 0 then force_edus p m else m)
  unfolding force_edus
  after_force-AllForced counter m all closed =
      if_cases (λ x. AllForced p x × IsClosed x) (counter % 50 == 0) (force_edus p m) m
        (λ e. (force_edus-AllForced p m user, closed))
        (λ e. (elim all [ inl z ↦ absurd (ground (arith, z)) | inr a ↦ a ], closed))

  destroy_loop-NoneLeft :
      (rest : List (Manager → Manager)) (counter : ℕ) (m : Manager)
      → Leave rest
      → (counter ≡ 0) ⊎ AllForced p m
      → IsClosed m
      → NoneLeft (destroy_loop p rest counter m)
  unfolding destroy_loop
  destroy_loop-NoneLeft [] counter m h all closed = absurd h
  destroy_loop-NoneLeft (others ∷ rest) counter m (obeys, h) all closed =
      let f = if counter % 50 == 0 then force_edus p m else m in
      let (all', closed') = after_force-AllForced counter m all closed in
      if_cases NoneLeft (get_edu_count p m == 0) _ _ (λ e. (ground arith, closed))
        λ e. elim h [
          | inl clears ↦
              stops-NoneLeft rest _ (others f) (cleared_count f others all' closed' obeys clears)
                (obeys f closed').0
          | inr later ↦
              destroy_loop-NoneLeft rest _ (others f) later
                (inr (kept-AllForced f others all' closed' obeys)) (obeys f closed').0
        ]

count_everything :
    (chosen : ℕ → Bool) (queue : OrderedMap Block)
    → ((id : ℕ) → chosen id ≡ true)
    → count_chosen chosen queue ≡ length queue
unfolding count_chosen
count_everything chosen [] all = refl
count_everything chosen ((id, b) ∷ rest) all =
    ground (arith, all id, count_everything chosen rest all)

all_concerned : (m : Manager) (id : ℕ) → concerns edu_all m id ≡ true
all_concerned m id = elim (Bool-cases (is_system_edu m id)) [
  | inl e ↦ rw e refl
  | inr e ↦ rw e refl
]

-- All EDUs together are as many as size () says.
get_edu_count_all : (m : Manager) → get_edu_count edu_all m ≡ size m
unfolding get_edu_count
get_edu_count_all m = ground (
  arith,
  count_everything (concerns edu_all m) m.run_queue (all_concerned m),
  count_everything (λ _. true) m.idle_queue (λ id. refl),
)

-- It returns EDB_OK with a manager of size 0, which takes in no EDU.
abbrev pub Emptied : Option (Rc × Manager) → Type 0
Emptied none = ⊥
Emptied (some (rc, m)) = (rc ≡ ok) × (size m ≡ 0) × IsClosed m

emptied :
    (m : Option Manager)
    → NoneLeft edu_all refl m
    → Emptied (elim m as (λ _. Option (Rc × Manager)) [ none ↦ none | some m' ↦ some (ok, m') ])
emptied none h = h
emptied (some m) (e, closed) = (refl, sym (get_edu_count_all m) ∙ e, closed)

after_users :
    (all : List (Manager → Manager)) (m : Option Manager)
    → Leave all
    → NoneLeft edu_user refl m
    → Emptied (elim m as (λ _. Option (Rc × Manager)) [
      | none ↦ none
      | some m' ↦ elim (destroy_loop edu_all all 0 m') [ none ↦ none | some m'' ↦ some (ok, m'') ]
    ])
after_users all none leave h = h
after_users all (some m) leave (e, closed) =
    emptied _ (destroy_loop-NoneLeft edu_all refl all 0 m leave (inl refl) closed)

-- Where, once the manager is destroyed and quiesced, the other threads keep it so and its system
-- EDUs, bring no EDU into a queue and take no force back while _destroyAll sleeps, and where in
-- some round of each of its loops all EDUs that are forced leave: _destroyAll returns, with EDB_OK
-- and a manager of size 0 that is destroyed and quiesced.
pub destroy_all-Emptied :
    (users all : List (Manager → Manager)) (m : Manager)
    → Leave users
    → Leave all
    → Emptied (destroy_all users all m)
unfolding destroy_all
destroy_all-Emptied users all m h k =
    after_users all _ k
      (destroy_loop-NoneLeft edu_user refl users 0 (close_down m) h (inl refl) (refl, refl))
