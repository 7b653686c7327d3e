-- ===== src/Dms/History.antt =====
-- The record store of dms/dms.cpp over its operations, from `initialize` on.
use emeralddb_src.Base.{
  ℕ, ◌≡◌, refl, subst, inl, inr, Bool, false, ◌&&◌, List, [], ◌∷◌, none, some, arith, ◌==◌,
  if◌then◌else◌, if_cases, Option-cases,
}
use emeralddb_src.Core.{Rc, ok, is_error}
use emeralddb_src.Bson.{Bson}
use emeralddb_src.Memory.{Mem}
use emeralddb_src.Dms.Layout.{RecordId, slot_empty}
use emeralddb_src.Dms.File.{DmsFile, returns, find, remove, update_free_space, page_to_offset}
use emeralddb_src.Dms.File.Invariant.{IsFile, StoredAt}
use emeralddb_src.Dms.File.Find.{find-StoredAt}
use emeralddb_src.Dms.File.Remove.{Deleted, Differ, remove-Deleted}
use emeralddb_src.Dms.Page.{search_slot}
use emeralddb_src.Dms.Extend.Segment.{HeaderApart}
use emeralddb_src.Dms.Open.{Opening, initialize, new_file}
use emeralddb_src.Dms.Open.New.{Initialized, initialize-Initialized}
use emeralddb_src.Dms.Insertion.{Turn, insert}
use emeralddb_src.Dms.Insertion.Settled.{AllBehave, Settled, insert-Settled, moved-HeaderApart}

abbrev pub same_id : RecordId → RecordId → Bool
same_id a b = a.page_id == b.page_id && a.slot_id == b.slot_id

-- The record ids that were returned and not removed since, with their objects
abbrev pub without : {O : Type 0} → RecordId → List (RecordId × O) → List (RecordId × O)
without rid [] = []
without rid ((r, o) ∷ log) = if same_id r rid then without rid log else (r, o) ∷ without rid log

module _ (bson : Bson) where
  open bson use {Obj, objdata}

  -- A file that was opened at length 0 and then changed by insertions and removals, and what it should hold.
  pub data Runs : DmsFile → List (RecordId × Obj) → Type 0 where
    opens :
        (o : Opening) (disk : ℕ → ℕ) (first second : Rc) (rest : List Rc) (m : Mem) (g : DmsFile)
        → initialize o disk (first ∷ second ∷ rest) (new_file m 0) ≡ some (ok, g)
        → Runs g []
    inserts :
        (f : DmsFile) (log : List (RecordId × Obj)) (turns : List Turn) (o : Obj) (rc : Rc)
        (g : DmsFile) (rid : RecordId) (out : Obj)
        → Runs f log
        → AllBehave turns f
        → insert bson turns f o ≡ returns rc g (some (rid, out))
        → Runs g ((rid, o) ∷ log)
    refuses :
        (f : DmsFile) (log : List (RecordId × Obj)) (turns : List Turn) (o : Obj) (rc : Rc)
        (g : DmsFile)
        → Runs f log
        → AllBehave turns f
        → insert bson turns f o ≡ returns rc g none
        → Runs g log
    removes :
        (f : DmsFile) (log : List (RecordId × Obj)) (rid : RecordId) (o : Obj)
        → Runs f log
        → StoredAt f rid (objdata o)
        → Runs (remove f rid).1 (without rid log)

  -- Each object of the log is stored under its id.
  abbrev AllStored : DmsFile → List (RecordId × Obj) → Type 0
  AllStored f [] = Unit {0}
  AllStored f ((rid, o) ∷ log) = StoredAt f rid (objdata o) × AllStored f log

  -- Each object of the log is found under its id.
  abbrev pub AllFound : DmsFile → List (RecordId × Obj) → Type 0
  AllFound f [] = Unit {0}
  AllFound f ((rid, o) ∷ log) = (find bson f rid ≡ (ok, some o)) × AllFound f log

  kept-AllStored :
      (f g : DmsFile) (log : List (RecordId × Obj))
      → ((rid : RecordId) (bytes : List ℕ) → StoredAt f rid bytes → StoredAt g rid bytes)
      → AllStored f log
      → AllStored g log
  kept-AllStored f g [] k h = tt
  kept-AllStored f g ((rid, o) ∷ log) k (s, rest) =
      (k rid (objdata o) s, kept-AllStored f g log k rest)

  without-AllStored :
      (f g : DmsFile) (rid : RecordId) (log : List (RecordId × Obj))
      → Deleted bson f g rid
      → AllStored f log
      → AllStored g (without rid log)
  without-AllStored f g rid [] d h = tt
  without-AllStored f g rid ((r, o) ∷ log) d (s, rest) =
      if_cases (AllStored g) (same_id r rid) _ _ (λ e. without-AllStored f g rid log d rest)
        λ e. (d.others r (objdata o) (differ e) s, without-AllStored f g rid log d rest)
    where
      differ : same_id r rid ≡ false → Differ r rid
      differ e = ground arith

  AllStored-AllFound :
      (f : DmsFile) (log : List (RecordId × Obj)) → AllStored f log → AllFound f log
  AllStored-AllFound f [] h = tt
  AllStored-AllFound f ((rid, o) ∷ log) (s, rest) =
      (find-StoredAt bson f rid o s, AllStored-AllFound f log rest)

  -- A removal leaves the segments and the header where they are.
  abbrev Unmoved : DmsFile → Rc × DmsFile → Type 0
  Unmoved f (rc, g) = (g.header ≡ f.header) × (g.body ≡ f.body)

  remove-Unmoved : (f : DmsFile) (rid : RecordId) → Unmoved f (remove f rid)
  unfolding remove update_free_space
  remove-Unmoved f rid = elim (Option-cases (page_to_offset f rid.page_id)) [
    | inl n ↦ rw (n, remove) (refl, refl)
    | inr (page, e) ↦
        rw (e, remove)
          (if_cases (Unmoved f) (is_error (search_slot f.mem (some page) rid).0) _ _
            (λ _. (refl, refl))
            λ _.
              if_cases (Unmoved f) ((search_slot f.mem (some page) rid).1 == slot_empty) _ _
                (λ _. (refl, refl)) λ _. (refl, refl))
  ]

  pub Runs-AllStored :
      {f : DmsFile} {log : List (RecordId × Obj)}
      → Runs f log
      → IsFile f × HeaderApart f × AllStored f log
  Runs-AllStored (opens o disk first second rest m g e) =
      elim (subst Initialized e (initialize-Initialized o disk first second rest m)) [
        | inl bad ↦ absurd cc
        | inr (done, valid, apart, empty, size) ↦ (valid, apart, tt)
      ]
  Runs-AllStored (inserts f log turns o rc g rid out r behave e) =
      let (valid, apart, all) = Runs-AllStored r in
      let s : Settled bson f o (returns rc g (some (rid, out))) =
        subst (Settled bson f o) e (insert-Settled bson turns f o valid apart behave) in
      (s.1, s.2, (s.4, kept-AllStored f g log (s.3) all))
  Runs-AllStored (refuses f log turns o rc g r behave e) =
      let (valid, apart, all) = Runs-AllStored r in
      let s : Settled bson f o (returns rc g none) =
        subst (Settled bson f o) e (insert-Settled bson turns f o valid apart behave) in
      (s.1, s.2, kept-AllStored f g log (s.3) all)
  Runs-AllStored (removes f log rid o r stored) =
      let (valid, apart, all) = Runs-AllStored r in
      let d = (remove-Deleted bson f rid (objdata o) valid stored).1 in
      let (header, body) = remove-Unmoved f rid in
      (
        d.is_file,
        moved-HeaderApart bson f (remove f rid).1 header body apart,
        without-AllStored f (remove f rid).1 rid log d all,
      )

  -- On a file that was opened at length 0 and then changed by any insertions that returned and any
  -- removals of stored records, where mmap answers an extension only with a place that is not in
  -- use and the other threads, between two passes of an insertion, leave a well-formed file that
  -- stores all it stored and whose header lies outside of its segments: every object that was
  -- inserted with EDB_OK, and whose id was not removed since, is found under its id.
  pub Runs-AllFound : (f : DmsFile) (log : List (RecordId × Obj)) → Runs f log → AllFound f log
  Runs-AllFound f log r = let (valid, apart, all) = Runs-AllStored r in AllStored-AllFound f log all
