-- ===== src/Dms/Page/Stored.antt =====
-- What keeps an object of a page of dms/dms.cpp readable.
use emeralddb_src.Base.{ℕ, ◌+◌, ◌≤◌, ◌<◌, ◌≡◌, ap, ◌∙◌, ◌≢◌, List, arith, length}
use emeralddb_src.Memory.{Mem, Agree, load32_shift}
use emeralddb_src.Dms.Layout.{slot_empty, slot_at}
use emeralddb_src.Dms.Page.Invariant.{Stored}
use emeralddb_src.Dms.Page.Stack.{record-Agree}

-- An object is stored alike where its slot and its record are the same.
pub Stored-Agree :
    (m m' : Mem) (page j : ℕ) (bytes : List ℕ) (lo hi : ℕ)
    → slot_at m' page j ≡ slot_at m page j
    → Agree m m' (page + lo) (page + hi)
    → lo ≤ slot_at m page j
    → slot_at m page j + (length bytes + 8) ≤ hi
    → Stored m page j bytes
    → Stored m' page j bytes
Stored-Agree m m' page j bytes lo hi e a p q s =
    let r = record-Agree m m' page lo (slot_at m page j) hi a p (omega arith) in
    record {
      live = rw e s.live;
      normal = rw e (r.1 ∙ s.normal);
      sized = rw e (r.0 ∙ s.sized);
      holds =
          rw e λ k l. a (page + slot_at m page j + 8 + k) (omega arith) (omega arith) ∙ s.holds k l;
    }

-- An object is stored at the place to which its record is moved.
pub Stored-moved :
    (m m' : Mem) (page j : ℕ) (bytes : List ℕ) (to : ℕ)
    → slot_at m' page j ≡ to
    → to ≢ slot_empty
    → ((k : ℕ) → k < length bytes + 8 → m' (page + to + k) ≡ m (page + slot_at m page j + k))
    → Stored m page j bytes
    → Stored m' page j bytes
Stored-moved m m' page j bytes to e l h s =
    let word = load32_shift m m' (page + slot_at m page j) (page + to) (length bytes + 8) in
    record {
      live = rw e l;
      normal = rw e (
          word 4 (page + to + 4) (page + slot_at m page j + 4) h (omega arith) (omega arith)
            (omega arith)
          ∙ s.normal);
      sized = rw e (
          word 0 (page + to) (page + slot_at m page j) h (omega arith) (omega arith) (omega arith)
          ∙ s.sized);
      holds =
          rw e
            λ k b. ap m' (omega arith) ∙ h (8 + k) (omega arith) ∙ ap m (omega arith) ∙ s.holds k b;
    }
