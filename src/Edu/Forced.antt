-- ===== src/Edu/Forced.antt =====
-- pmd/pmdEDUMgr.cpp: what forceUserEDU and _forceEDUs keep of the manager.
use emeralddb_src.Base.{
  ℕ, ◌+◌, ◌≡◌, refl, sym, subst, ◌∙◌, ◌⊎◌, inl, inr, Bool, [], ◌∷◌, none, some, ◌==◌, Bool-cases,
  Option-cases,
}
use emeralddb_src.Edu.OrderedMap.{OrderedMap, Sorted, find}
use emeralddb_src.Edu.Block.{Block}
use emeralddb_src.Edu.Manager.{Manager}
use emeralddb_src.Edu.Force.{
  Property, forced, force_in, force_all, force_user_edu, force_edus, is_system_edu,
}
use emeralddb_src.Edu.Invariant.{IsManager, InRun, InIdle}

-- Under each key stands the same block, or that block forced.
abbrev pub Similar : OrderedMap Block → OrderedMap Block → Type 0
Similar q q' =
    (k : ℕ)
    → (find k q' ≡ find k q) ⊎ ((b : Block) × (find k q ≡ some b) × (find k q' ≡ some (forced b)))

pub same-Similar : (q : OrderedMap Block) → Similar q q
same-Similar q k = inl refl

-- A queue with the same block, or that block forced, at its head
cons-Similar :
    (id : ℕ) (b : Block) (q q' : OrderedMap Block)
    → Similar q q'
    → Similar ((id, b) ∷ q) ((id, b) ∷ q')
unfolding find
cons-Similar id b q q' s k = elim (Bool-cases (id == k)) [
  | inl e ↦ inl (rw (e, find) refl)
  | inr n ↦ elim (s k) [
    | inl h ↦ inl (rw (n, find) h)
    | inr (c, h, h') ↦ inr (c, rw (n, find) h, rw (n, find) h')
  ]
]

forced-Similar :
    (id : ℕ) (b : Block) (q q' : OrderedMap Block)
    → Similar q q'
    → Similar ((id, b) ∷ q) ((id, forced b) ∷ q')
unfolding find
forced-Similar id b q q' s k = elim (Bool-cases (id == k)) [
  | inl e ↦ inr (b, rw (e, find) refl, rw (e, find) refl)
  | inr n ↦ elim (s k) [
    | inl h ↦ inl (rw (n, find) h)
    | inr (c, h, h') ↦ inr (c, rw (n, find) h, rw (n, find) h')
  ]
]

pub force_all-Similar : (chosen : ℕ → Bool) (q : OrderedMap Block) → Similar q (force_all chosen q)
unfolding force_all
force_all-Similar chosen [] = same-Similar []
force_all-Similar chosen ((id, b) ∷ rest) = elim (Bool-cases (chosen id)) [
  | inl e ↦ rw (e, force_all) (forced-Similar id b rest _ (force_all-Similar chosen rest))
  | inr e ↦ rw (e, force_all) (cons-Similar id b rest _ (force_all-Similar chosen rest))
]

pub force_in-Similar : (id : ℕ) (q q' : OrderedMap Block) → force_in id q ≡ some q' → Similar q q'
unfolding force_in
force_in-Similar id [] q' e = cc
force_in-Similar id ((k, b) ∷ rest) q' e = elim (Bool-cases (b.id == id)) [
  | inl here ↦
      let h : some ((k, forced b) ∷ rest) ≡ some q' = rw (here, force_in) at e in
      let d : (k, forced b) ∷ rest ≡ q' = cc in
      subst (Similar ((k, b) ∷ rest)) d (forced-Similar k b rest rest (same-Similar rest))
  | inr there ↦ elim (Option-cases (force_in id rest)) [
    | inl n ↦ let h : none ≡ some q' = rw (there, n, force_in) at e in cc
    | inr (later, n) ↦
        let h : some ((k, b) ∷ later) ≡ some q' = rw (there, n, force_in) at e in
        let d : (k, b) ∷ later ≡ q' = cc in
        subst (Similar ((k, b) ∷ rest)) d
          (cons-Similar k b rest later (force_in-Similar id rest later n))
  ]
]

force_all-Sorted :
    (lo : ℕ) (chosen : ℕ → Bool) (q : OrderedMap Block)
    → Sorted lo q
    → Sorted lo (force_all chosen q)
unfolding force_all
force_all-Sorted lo chosen [] s = s
force_all-Sorted lo chosen ((id, b) ∷ rest) s = (s.0, force_all-Sorted (id + 1) chosen rest s.1)

force_in-Sorted :
    (lo id : ℕ) (q q' : OrderedMap Block) → Sorted lo q → force_in id q ≡ some q' → Sorted lo q'
unfolding force_in
force_in-Sorted lo id [] q' s e = cc
force_in-Sorted lo id ((k, b) ∷ rest) q' s e = elim (Bool-cases (b.id == id)) [
  | inl here ↦
      let h : some ((k, forced b) ∷ rest) ≡ some q' = rw (here, force_in) at e in
      let d : (k, forced b) ∷ rest ≡ q' = cc in subst (Sorted lo) d s
  | inr there ↦ elim (Option-cases (force_in id rest)) [
    | inl n ↦ let h : none ≡ some q' = rw (there, n, force_in) at e in cc
    | inr (later, n) ↦
        let h : some ((k, b) ∷ later) ≡ some q' = rw (there, n, force_in) at e in
        let d : (k, b) ∷ later ≡ q' = cc in
        subst (Sorted lo) d (s.0, force_in-Sorted (k + 1) id rest later s.1 n)
  ]
]

none-Similar : (q q' : OrderedMap Block) (k : ℕ) → Similar q q' → find k q ≡ none → find k q' ≡ none
none-Similar q q' k s e = elim (s k) [ inl h ↦ h ∙ e | inr (b, h, h') ↦ cc ]

module _ (m : Manager) (valid : IsManager m) (run idle : OrderedMap Block) where
  -- The manager with queues of the same blocks, or these blocks forced
  queues-IsManager :
      Similar m.run_queue run
      → Similar m.idle_queue idle
      → Sorted 0 run
      → Sorted 0 idle
      → IsManager (record m { run_queue = run; idle_queue = idle })
  queues-IsManager r i sr si = record {
    apart = λ k. elim (valid.apart k) [
      | inl n ↦ inl (none-Similar m.run_queue run k r n)
      | inr n ↦ inr (none-Similar m.idle_queue idle k i n)
    ];
    runs = λ k b e. elim (r k) [
      | inl h ↦ valid.runs k b (sym h ∙ e)
      | inr (c, h, h') ↦
          let d : forced c ≡ b = cc in
          let v = valid.runs k c h in
          subst (InRun m.next_id k) d
            (record { has_id = v.has_id; below = v.below; not_idle = v.not_idle })
    ];
    idles = λ k b e. elim (i k) [
      | inl h ↦ valid.idles k b (sym h ∙ e)
      | inr (c, h, h') ↦
          let d : forced c ≡ b = cc in
          let v = valid.idles k c h in
          subst (InIdle m.next_id k) d
            (record { has_id = v.has_id; below = v.below; pooled = v.pooled; resting = v.resting })
    ];
    sorted_run = sr;
    sorted_idle = si;
  }

-- forceUserEDU keeps the blocks of the idle queue, or forces them.
pub force_user_edu-Similar :
    (id : ℕ) (m : Manager) → Similar m.idle_queue (force_user_edu id m).1.idle_queue
unfolding force_user_edu
force_user_edu-Similar id m = elim (Bool-cases (is_system_edu m id)) [
  | inl e ↦ rw (e, force_user_edu) (same-Similar m.idle_queue)
  | inr e ↦ elim (Option-cases (force_in id m.run_queue)) [
    | inr (q, n) ↦ rw (e, n, force_user_edu) (same-Similar m.idle_queue)
    | inl n ↦ elim (Option-cases (force_in id m.idle_queue)) [
      | inl k ↦ rw (e, n, k, force_user_edu) (same-Similar m.idle_queue)
      | inr (q, k) ↦ rw (e, n, k, force_user_edu) (force_in-Similar id m.idle_queue q k)
    ]
  ]
]

module _ (m : Manager) (valid : IsManager m) where
  pub force_edus-IsManager : (p : Property) → IsManager (force_edus p m)
  unfolding force_edus
  force_edus-IsManager p =
      queues-IsManager m valid _ _ (force_all-Similar _ m.run_queue)
        (force_all-Similar _ m.idle_queue) (force_all-Sorted 0 _ m.run_queue valid.sorted_run)
        (force_all-Sorted 0 _ m.idle_queue valid.sorted_idle)

  pub force_user_edu-IsManager : (id : ℕ) → IsManager (force_user_edu id m).1
  unfolding force_user_edu
  force_user_edu-IsManager id = elim (Bool-cases (is_system_edu m id)) [
    | inl e ↦ rw (e, force_user_edu) valid
    | inr e ↦ elim (Option-cases (force_in id m.run_queue)) [
      | inr (q, n) ↦
          rw (e, n, force_user_edu)
            (queues-IsManager m valid q m.idle_queue (force_in-Similar id m.run_queue q n)
              (same-Similar m.idle_queue) (force_in-Sorted 0 id m.run_queue q valid.sorted_run n)
              valid.sorted_idle)
      | inl n ↦ elim (Option-cases (force_in id m.idle_queue)) [
        | inl k ↦ rw (e, n, k, force_user_edu) valid
        | inr (q, k) ↦
            rw (e, n, k, force_user_edu)
              (queues-IsManager m valid m.run_queue q (same-Similar m.run_queue)
                (force_in-Similar id m.idle_queue q k) valid.sorted_run
                (force_in-Sorted 0 id m.idle_queue q valid.sorted_idle k))
      ]
    ]
  ]
