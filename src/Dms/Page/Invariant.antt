-- ===== src/Dms/Page/Invariant.antt =====
-- What holds of a page between two operations of dms/dms.cpp: the records are stacked from the end of
-- the page downwards in the order of their slots.
use emeralddb_src.Base.{
  ℕ, zero, suc, ◌+◌, ◌*◌, ◌≤◌, ◌≡◌, sym, subst, ◌≢◌, Bool, true, false, List, arith, ◌==◌,
  if◌then◌else◌, length,
}
use emeralddb_src.Memory.{Mem, Agree, Holds}
use emeralddb_src.Dms.Layout.{
  page_size, slot_empty, flag_normal, num_slots, slot_offset, free_space, free_offset, slot_at,
  record_size, record_flag, has_eye_catcher,
}

-- A record ends at the top of the free part, or somewhere below once a slot has been emptied.
abbrev pub Below : Bool → ℕ → ℕ → Type 0
Below true a b = a ≤ b
Below false a b = a ≡ b

-- The record of a slot lies under `top`.
abbrev pub Fits : Mem → ℕ → ℕ → ℕ → Bool → Type 0
Fits m page slot top hole =
    (8 ≤ record_size m page slot)
    × (record_flag m page slot ≡ flag_normal)
    × Below hole (slot + record_size m page slot) top

abbrev pub next_top : ℕ → ℕ → ℕ
next_top slot top = if slot == slot_empty then top else slot

abbrev pub next_hole : ℕ → Bool → Bool
next_hole slot hole = if slot == slot_empty then true else hole

-- The slots from `i` on, `left` of them, hold records one under the other down to `bottom`.
abbrev pub Stacked : Mem → ℕ → ℕ → ℕ → ℕ → ℕ → Bool → Type 0
Stacked m page bottom i zero top hole = Below hole bottom top
Stacked m page bottom i (suc left) top hole =
    (slot_at m page i ≢ slot_empty → Fits m page (slot_at m page i) top hole)
    × Stacked m page bottom (i + 1) left (next_top (slot_at m page i) top)
        (next_hole (slot_at m page i) hole)

-- The bytes of the live records of those slots, their headers included.
abbrev pub live_bytes : Mem → ℕ → ℕ → ℕ → ℕ
live_bytes m page i zero = 0
live_bytes m page i (suc left) =
    (if slot_at m page i == slot_empty then 0 else record_size m page (slot_at m page i))
    + live_bytes m page (i + 1) left

pub record IsPage (m : Mem) (page : ℕ) : Type 0 where
  pub eye_catcher : has_eye_catcher m page ≡ true
  pub slots_end : slot_offset m page ≡ 28 + num_slots m page * 4
  pub room : slot_offset m page ≤ free_offset m page
  pub stacked : Stacked m page (free_offset m page) 0 (num_slots m page) page_size false
  pub space :
      free_space m page + slot_offset m page + live_bytes m page 0 (num_slots m page) ≡ page_size

-- Slot `i` of the page holds the object whose bytes are given.
pub record Stored (m : Mem) (page i : ℕ) (bytes : List ℕ) : Type 0 where
  pub live : slot_at m page i ≢ slot_empty
  pub normal : record_flag m page (slot_at m page i) ≡ flag_normal
  pub sized : record_size m page (slot_at m page i) ≡ length bytes + 8
  pub holds : Holds m (page + slot_at m page i + 8) bytes

-- A page with the eye catcher of another, whose `n` slots are stacked down to `bottom`.
pub IsPage-of :
    (m m' : Mem) (page n bottom : ℕ)
    → Agree m m' page (page + 4)
    → num_slots m' page ≡ n
    → slot_offset m' page ≡ 28 + n * 4
    → free_offset m' page ≡ bottom
    → 28 + n * 4 ≤ bottom
    → Stacked m' page bottom 0 n page_size false
    → free_space m' page + (28 + n * 4) + live_bytes m' page 0 n ≡ page_size
    → IsPage m page
    → IsPage m' page
IsPage-of m m' page n bottom same count ends free room stacked space valid = record {
  eye_catcher =
      rw
        (
          same page (omega arith) (omega arith),
          same (page + 1) (omega arith) (omega arith),
          same (page + 2) (omega arith) (omega arith),
          same (page + 3) (omega arith) (omega arith),
        )
        valid.eye_catcher;
  slots_end = omega arith;
  room = omega arith;
  stacked = rw count (subst (λ b. Stacked m' page b 0 n page_size false) (sym free) stacked);
  space = rw count (omega arith);
}
