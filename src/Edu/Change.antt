-- ===== src/Edu/Change.antt =====
-- The changes that an operation of pmd/pmdEDUMgr.cpp makes to one EDU, and what they keep.
use emeralddb_src.Base.{
  ℕ, ◌≡◌, refl, ◌∙◌, ◌≢◌, ◌⊎◌, inl, inr, false, Option, none, some, arith, Option-cases,
}
use emeralddb_src.Edu.OrderedMap.{
  OrderedMap, find, set, erase, find-set, find-set_ne, find-erase, find-erase_ne, set-Sorted,
  erase-Sorted,
}
use emeralddb_src.Edu.Block.{Block, agent, running, waiting, idle, is_idle}
use emeralddb_src.Edu.Manager.{Manager, get_edu_by_id}
use emeralddb_src.Edu.Invariant.{
  All-set, All-erase, Apart-sym, Apart-set, Apart-erase, InRun, InIdle, IsManager,
}

-- A block is updated where it stands, taken from one queue to the other, or taken out. The first two
-- arguments are the block before and after.
pub data Change (m : Manager) (id : ℕ) : Block → Option Block → Manager → Type 0 where
  updates_run :
      (b b' : Block)
      → find id m.run_queue ≡ some b
      → b'.id ≡ b.id
      → is_idle b'.status ≡ false
      → Change m id b (some b') (record m { run_queue = set id b' m.run_queue })
  updates_idle :
      (b b' : Block)
      → find id m.idle_queue ≡ some b
      → b'.id ≡ b.id
      → b'.edu_type ≡ b.edu_type
      → (b'.status ≡ idle) ⊎ (b'.status ≡ running) ⊎ (b'.status ≡ waiting)
      → Change m id b (some b') (record m { idle_queue = set id b' m.idle_queue })
  wakes :
      (b b' : Block)
      → find id m.idle_queue ≡ some b
      → b'.id ≡ b.id
      → is_idle b'.status ≡ false
      → Change m id b
          (some b')
          (record m { idle_queue = erase id m.idle_queue; run_queue = set id b' m.run_queue })
  rests :
      (b b' : Block)
      → find id m.run_queue ≡ some b
      → b'.id ≡ b.id
      → b'.edu_type ≡ agent
      → b'.status ≡ idle
      → Change m id b
          (some b')
          (record m { run_queue = erase id m.run_queue; idle_queue = set id b' m.idle_queue })
  leaves_run :
      (b : Block) (tids : OrderedMap ℕ)
      → find id m.run_queue ≡ some b
      → Change m id b none (record m { tid_eduid_map = tids; run_queue = erase id m.run_queue })
  leaves_idle :
      (b : Block) (tids : OrderedMap ℕ)
      → find id m.idle_queue ≡ some b
      → Change m id b none (record m { tid_eduid_map = tids; idle_queue = erase id m.idle_queue })

pub same_lookup :
    (m m' : Manager) (k : ℕ)
    → find k m'.run_queue ≡ find k m.run_queue
    → find k m'.idle_queue ≡ find k m.idle_queue
    → get_edu_by_id m' k ≡ get_edu_by_id m k
unfolding get_edu_by_id
same_lookup m m' k e f = elim (Option-cases (find k m.run_queue)) [
  | inl n ↦ rw (e, n, f, get_edu_by_id) refl
  | inr (b, s) ↦ rw (e, s, get_edu_by_id) refl
]

module _ (m : Manager) (valid : IsManager m) (id : ℕ) where
  not_idle : (b : Block) → find id m.run_queue ≡ some b → find id m.idle_queue ≡ none
  not_idle b e = elim (valid.apart id) [ inl n ↦ cc | inr n ↦ n ]

  not_run : (b : Block) → find id m.idle_queue ≡ some b → find id m.run_queue ≡ none
  not_run b e = elim (valid.apart id) [ inl n ↦ n | inr n ↦ cc ]

  pub Change-IsManager :
      {b : Block} {c : Option Block} {m' : Manager} → Change m id b c m' → IsManager m'
  Change-IsManager (updates_run b b' e i s) =
      let r = valid.runs id b e in
      record {
        apart = Apart-set m.run_queue m.idle_queue valid.apart id b' (not_idle b e);
        sorted_run = set-Sorted 0 id b' m.run_queue (omega arith) valid.sorted_run;
        sorted_idle = valid.sorted_idle;
        runs =
            All-set (InRun m.next_id) id b' m.run_queue
              (record { has_id = i ∙ r.has_id; below = r.below; not_idle = s }) valid.runs;
        idles = valid.idles;
      }
  Change-IsManager (updates_idle b b' e i t s) =
      let r = valid.idles id b e in
      record {
        apart =
            Apart-sym (set id b' m.idle_queue) m.run_queue
              (Apart-set m.idle_queue m.run_queue
                (Apart-sym m.run_queue m.idle_queue valid.apart id) id b' (not_run b e))
              id;
        sorted_run = valid.sorted_run;
        sorted_idle = set-Sorted 0 id b' m.idle_queue (omega arith) valid.sorted_idle;
        runs = valid.runs;
        idles =
            All-set (InIdle m.next_id) id b' m.idle_queue
              (record {
                has_id = i ∙ r.has_id;
                below = r.below;
                pooled = t ∙ r.pooled;
                resting = s;
              })
              valid.idles;
      }
  Change-IsManager (wakes b b' e i s) =
      let r = valid.idles id b e in
      let less =
        Apart-erase m.idle_queue m.run_queue (Apart-sym m.run_queue m.idle_queue valid.apart id)
          id in
      record {
        apart =
            Apart-set m.run_queue (erase id m.idle_queue)
              (Apart-sym (erase id m.idle_queue) m.run_queue less id) id b'
              (find-erase id m.idle_queue);
        sorted_run = set-Sorted 0 id b' m.run_queue (omega arith) valid.sorted_run;
        sorted_idle = erase-Sorted 0 id m.idle_queue valid.sorted_idle;
        runs =
            All-set (InRun m.next_id) id b' m.run_queue
              (record { has_id = i ∙ r.has_id; below = r.below; not_idle = s }) valid.runs;
        idles = All-erase (InIdle m.next_id) id m.idle_queue valid.idles;
      }
  Change-IsManager (rests b b' e i t s) =
      let r = valid.runs id b e in
      let less = Apart-erase m.run_queue m.idle_queue valid.apart id in
      record {
        apart =
            Apart-sym (set id b' m.idle_queue) (erase id m.run_queue)
              (Apart-set m.idle_queue (erase id m.run_queue)
                (Apart-sym (erase id m.run_queue) m.idle_queue less id) id b'
                (find-erase id m.run_queue))
              id;
        sorted_run = erase-Sorted 0 id m.run_queue valid.sorted_run;
        sorted_idle = set-Sorted 0 id b' m.idle_queue (omega arith) valid.sorted_idle;
        runs = All-erase (InRun m.next_id) id m.run_queue valid.runs;
        idles =
            All-set (InIdle m.next_id) id b' m.idle_queue
              (record { has_id = i ∙ r.has_id; below = r.below; pooled = t; resting = inl s })
              valid.idles;
      }
  Change-IsManager (leaves_run b tids e) = record {
    apart = Apart-erase m.run_queue m.idle_queue valid.apart id;
    sorted_run = erase-Sorted 0 id m.run_queue valid.sorted_run;
    sorted_idle = valid.sorted_idle;
    runs = All-erase (InRun m.next_id) id m.run_queue valid.runs;
    idles = valid.idles;
  }
  Change-IsManager (leaves_idle b tids e) =
      let less =
        Apart-erase m.idle_queue m.run_queue (Apart-sym m.run_queue m.idle_queue valid.apart id)
          id in
      record {
        apart = Apart-sym (erase id m.idle_queue) m.run_queue less id;
        sorted_run = valid.sorted_run;
        sorted_idle = erase-Sorted 0 id m.idle_queue valid.sorted_idle;
        runs = valid.runs;
        idles = All-erase (InIdle m.next_id) id m.idle_queue valid.idles;
      }

  -- The block that the manager has under the id is the one before, then the one after.
  pub Change-before :
      {b : Block} {c : Option Block} {m' : Manager}
      → Change m id b c m'
      → get_edu_by_id m id ≡ some b
  unfolding get_edu_by_id
  Change-before (updates_run b b' e i s) = rw (e, get_edu_by_id) refl
  Change-before (updates_idle b b' e i t s) = rw (not_run b e, e, get_edu_by_id) refl
  Change-before (wakes b b' e i s) = rw (not_run b e, e, get_edu_by_id) refl
  Change-before (rests b b' e i t s) = rw (e, get_edu_by_id) refl
  Change-before (leaves_run b tids e) = rw (e, get_edu_by_id) refl
  Change-before (leaves_idle b tids e) = rw (not_run b e, e, get_edu_by_id) refl

  pub Change-after :
      {b : Block} {c : Option Block} {m' : Manager} → Change m id b c m' → get_edu_by_id m' id ≡ c
  unfolding get_edu_by_id
  Change-after (updates_run b b' e i s) = rw (find-set id b' m.run_queue, get_edu_by_id) refl
  Change-after (updates_idle b b' e i t s) =
      rw (not_run b e, find-set id b' m.idle_queue, get_edu_by_id) refl
  Change-after (wakes b b' e i s) = rw (find-set id b' m.run_queue, get_edu_by_id) refl
  Change-after (rests b b' e i t s) =
      rw (find-erase id m.run_queue, find-set id b' m.idle_queue, get_edu_by_id) refl
  Change-after (leaves_run b tids e) =
      rw (find-erase id m.run_queue, not_idle b e, get_edu_by_id) refl
  Change-after (leaves_idle b tids e) =
      rw (not_run b e, find-erase id m.idle_queue, get_edu_by_id) refl

  -- The other EDUs are as before.
  pub Change-others :
      {b : Block} {c : Option Block} {m' : Manager}
      → Change m id b c m'
      → (k : ℕ) → k ≢ id
      → get_edu_by_id m' k ≡ get_edu_by_id m k
  Change-others (updates_run b b' e i s) k ne =
      same_lookup m _ k (find-set_ne k id b' m.run_queue ne) refl
  Change-others (updates_idle b b' e i t s) k ne =
      same_lookup m _ k refl (find-set_ne k id b' m.idle_queue ne)
  Change-others (wakes b b' e i s) k ne =
      same_lookup m _ k (find-set_ne k id b' m.run_queue ne) (find-erase_ne k id m.idle_queue ne)
  Change-others (rests b b' e i t s) k ne =
      same_lookup m _ k (find-erase_ne k id m.run_queue ne) (find-set_ne k id b' m.idle_queue ne)
  Change-others (leaves_run b tids e) k ne =
      same_lookup m _ k (find-erase_ne k id m.run_queue ne) refl
  Change-others (leaves_idle b tids e) k ne =
      same_lookup m _ k refl (find-erase_ne k id m.idle_queue ne)
