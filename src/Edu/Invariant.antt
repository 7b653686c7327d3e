-- ===== src/Edu/Invariant.antt =====
-- What holds of the manager of pmd/pmdEDUMgr.cpp between two critical sections.
use emeralddb_src.Base.{
  ℕ, ◌<◌, ◌≡◌, sym, ap, subst, ◌∙◌, ◌⊎◌, inl, inr, false, none, some, arith, ◌==◌, Bool-cases,
}
use emeralddb_src.Edu.OrderedMap.{
  OrderedMap, Sorted, find, set, erase, find-set, find-set_ne, find-erase, find-erase_ne,
}
use emeralddb_src.Edu.Block.{Block, agent, running, waiting, idle, is_idle}
use emeralddb_src.Edu.Manager.{Manager}

-- Each entry satisfies a predicate.
abbrev pub All : {V : Type 0} → (ℕ → V → Type 0) → OrderedMap V → Type 0
All {V} P map = (k : ℕ) (v : V) → find k map ≡ some v → P k v

-- No key is in both maps.
abbrev pub Apart : {V : Type 0} → OrderedMap V → OrderedMap V → Type 0
Apart a b = (k : ℕ) → (find k a ≡ none) ⊎ (find k b ≡ none)

module _ {V : Type 0} (P : ℕ → V → Type 0) where
  pub All-set : (k : ℕ) (v : V) (map : OrderedMap V) → P k v → All P map → All P (set k v map)
  All-set k v map p all j w e = elim (Bool-cases (j == k)) [
    | inl same ↦
        let eq : j ≡ k = ground arith in
        let q : some v ≡ some w =
          sym (find-set k v map) ∙ subst (λ x. find x (set k v map) ≡ some w) eq e in
        let vw : v ≡ w = cc in subst (λ x. P x w) (sym eq) (subst (P k) vw p)
    | inr other ↦ all j w (sym (find-set_ne j k v map (ground arith)) ∙ e)
  ]

  pub All-erase : (k : ℕ) (map : OrderedMap V) → All P map → All P (erase k map)
  All-erase k map all j w e = elim (Bool-cases (j == k)) [
    | inl same ↦
        let eq : j ≡ k = ground arith in
        let q : none ≡ some w =
          sym (find-erase k map) ∙ subst (λ x. find x (erase k map) ≡ some w) eq e in
        cc
    | inr other ↦ all j w (sym (find-erase_ne j k map (ground arith)) ∙ e)
  ]

module _ {V : Type 0} (a b : OrderedMap V) (apart : Apart a b) (k : ℕ) where
  pub Apart-sym : Apart b a
  Apart-sym j = elim (apart j) [ inl e ↦ inr e | inr e ↦ inl e ]

  pub Apart-set : (v : V) → find k b ≡ none → Apart (set k v a) b
  Apart-set v e j = elim (Bool-cases (j == k)) [
    | inl same ↦ let eq : j ≡ k = ground arith in inr (ap (λ x. find x b) eq ∙ e)
    | inr other ↦ elim (apart j) [
      | inl n ↦ inl (find-set_ne j k v a (ground arith) ∙ n)
      | inr n ↦ inr n
    ]
  ]

  pub Apart-erase : Apart (erase k a) b
  Apart-erase j = elim (Bool-cases (j == k)) [
    | inl same ↦
        let eq : j ≡ k = ground arith in inl (ap (λ x. find x (erase k a)) eq ∙ find-erase k a)
    | inr other ↦ elim (apart j) [
      | inl n ↦ inl (find-erase_ne j k a (ground arith) ∙ n)
      | inr n ↦ inr n
    ]
  ]

-- A block of the run queue under id `k`, when `n` is the next id.
pub record InRun (n k : ℕ) (b : Block) : Type 0 where
  pub has_id : b.id ≡ k
  pub below : k < n
  pub not_idle : is_idle b.status ≡ false

-- A block of the idle queue. Its status is not always idle: `waitEvent` changes the status of a pooled
-- thread that takes an event, and the thread stays in the queue.
pub record InIdle (n k : ℕ) (b : Block) : Type 0 where
  pub has_id : b.id ≡ k
  pub below : k < n
  pub pooled : b.edu_type ≡ agent
  pub resting : (b.status ≡ idle) ⊎ (b.status ≡ running) ⊎ (b.status ≡ waiting)

pub record IsManager (m : Manager) : Type 0 where
  pub apart : Apart m.run_queue m.idle_queue
  pub runs : All (InRun m.next_id) m.run_queue
  pub idles : All (InIdle m.next_id) m.idle_queue
  pub sorted_run : Sorted 0 m.run_queue
  pub sorted_idle : Sorted 0 m.idle_queue
