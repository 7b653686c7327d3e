-- ===== src/Dms/Page/Stack.antt =====
-- The records of a page of dms/dms.cpp as a stack: where they lie, and what keeps them.
use emeralddb_src.Base.{
  ℕ, zero, suc, ◌+◌, ◌≤◌, ◌<◌, ◌≡◌, refl, ap, ◌∙◌, inl, inr, ◌⊎◌, ◌≢◌, Bool, true, false, arith,
  ◌==◌, ltb, Bool-cases,
}
use emeralddb_src.Memory.{Mem, Agree, load32-Agree}
use emeralddb_src.Dms.Layout.{slot_empty, flag_normal, slot_at, record_size, record_flag}
use emeralddb_src.Dms.Page.Invariant.{Fits, Stacked, next_top, next_hole, live_bytes}

-- The records of a stack lie above its bottom.
pub Stacked-le :
    (m : Mem) (page bottom i left top : ℕ) (hole : Bool)
    → Stacked m page bottom i left top hole
    → bottom ≤ top
Stacked-le m page bottom i zero top true h = h
Stacked-le m page bottom i zero top false h = omega arith
Stacked-le m page bottom i (suc left) top true h =
    ground (arith, Stacked-le m page bottom (i + 1) left (next_top (slot_at m page i) top) true)
Stacked-le m page bottom i (suc left) top false h = ground (
  arith,
  Stacked-le m page bottom (i + 1) left (next_top (slot_at m page i) top)
      (next_hole (slot_at m page i) false) h.1,
)

-- The slots from `i` up to `n` are the same in both memories.
abbrev pub SameSlots : Mem → Mem → ℕ → ℕ → ℕ → Type 0
SameSlots m m' page i n = (j : ℕ) → i ≤ j → j < n → slot_at m' page j ≡ slot_at m page j

-- A record between `bottom` and `top` is read alike in memories that agree there.
pub record-Agree :
    (m m' : Mem) (page bottom slot top : ℕ)
    → Agree m m' (page + bottom) (page + top)
    → bottom ≤ slot
    → slot + 8 ≤ top
    → (record_size m' page slot ≡ record_size m page slot)
      × (record_flag m' page slot ≡ record_flag m page slot)
record-Agree m m' page bottom slot top a p q = (
  load32-Agree m m' (page + slot) (page + bottom) (page + top) a (omega arith) (omega arith),
  load32-Agree m m' (page + slot + 4) (page + bottom) (page + top) a (omega arith) (omega arith),
)

-- A live record lies between the bottom and the top of the stack that it heads.
pub Stacked-head :
    (m : Mem) (page bottom i left top : ℕ) (hole : Bool)
    → Stacked m page bottom i (suc left) top hole
    → slot_at m page i ≢ slot_empty
    → (bottom ≤ slot_at m page i)
      × (8 ≤ record_size m page (slot_at m page i))
      × (slot_at m page i + record_size m page (slot_at m page i) ≤ top)
Stacked-head m page bottom i left top true h live = ground (
  arith,
  Stacked-le m page bottom (i + 1) left (next_top (slot_at m page i) top)
      (next_hole (slot_at m page i) true) h.1,
)
Stacked-head m page bottom i left top false h live = ground (
  arith,
  Stacked-le m page bottom (i + 1) left (next_top (slot_at m page i) top)
      (next_hole (slot_at m page i) false) h.1,
)

pub next_top-le :
    (m : Mem) (page bottom i left top : ℕ) (hole : Bool)
    → Stacked m page bottom i (suc left) top hole
    → next_top (slot_at m page i) top ≤ top
next_top-le m page bottom i left top hole h =
    ground (arith, Stacked-head m page bottom i left top hole h)

-- Where the record of a live slot of the stack lies.
pub record InStack (m : Mem) (page bottom slot top : ℕ) : Type 0 where
  pub above : bottom ≤ slot
  pub header : 8 ≤ record_size m page slot
  pub under : slot + record_size m page slot ≤ top
  pub normal : record_flag m page slot ≡ flag_normal

pub Stacked-at :
    (m : Mem) (page bottom i left n top : ℕ) (hole : Bool)
    → i + left ≡ n
    → Stacked m page bottom i left top hole
    → (j : ℕ) → i ≤ j
    → j < n
    → slot_at m page j ≢ slot_empty
    → InStack m page bottom (slot_at m page j) top
Stacked-at m page bottom i zero n top hole e h j p q live = absurd (omega arith)
Stacked-at m page bottom i (suc left) n top hole e h j p q live = elim (Bool-cases (i == j)) [
  | inl same ↦
      let s : slot_at m page j ≡ slot_at m page i = ap (slot_at m page) (ground arith) in
      rw s (
        ground (
          arith,
          Stacked-head m page bottom i left top hole h (λ x. live (s ∙ x)),
          h.0 (λ x. live (s ∙ x)),
        ))
  | inr other ↦ ground (
    arith,
    next_top-le m page bottom i left top hole h,
    Stacked-at m page bottom (i + 1) left n (next_top (slot_at m page i) top)
        (next_hole (slot_at m page i) hole) (omega arith) h.1 j (ground arith) q live,
  )
]

Stacked-order :
    (m : Mem) (page bottom i left n top : ℕ) (hole : Bool)
    → i + left ≡ n
    → Stacked m page bottom i left top hole
    → (j k : ℕ) → i ≤ j
    → j < k
    → k < n
    → slot_at m page j ≢ slot_empty
    → slot_at m page k ≢ slot_empty
    → slot_at m page k + record_size m page (slot_at m page k) ≤ slot_at m page j
Stacked-order m page bottom i zero n top hole e h j k p q r live live' = absurd (omega arith)
Stacked-order m page bottom i (suc left) n top hole e h j k p q r live live' =
    elim (Bool-cases (i == j)) [
      | inl same ↦
          let s : slot_at m page j ≡ slot_at m page i = ap (slot_at m page) (ground arith) in
          let t =
            Stacked-at m page bottom (i + 1) left n (next_top (slot_at m page i) top)
              (next_hole (slot_at m page i) hole) (omega arith) h.1 k (omega arith) r live' in
          ground (arith, t.under)
      | inr other ↦
          Stacked-order m page bottom (i + 1) left n (next_top (slot_at m page i) top)
            (next_hole (slot_at m page i) hole) (omega arith) h.1 j k (ground arith) q r live live'
    ]

-- The records of two live slots do not overlap.
pub Stacked-apart :
    (m : Mem) (page bottom n top : ℕ)
    → Stacked m page bottom 0 n top false
    → (j k : ℕ) → j < n
    → k < n
    → j ≢ k
    → slot_at m page j ≢ slot_empty
    → slot_at m page k ≢ slot_empty
    → (slot_at m page k + record_size m page (slot_at m page k) ≤ slot_at m page j)
      ⊎ (slot_at m page j + record_size m page (slot_at m page j) ≤ slot_at m page k)
Stacked-apart m page bottom n top h j k p q ne live live' = elim (Bool-cases (ltb j k)) [
  | inl less ↦ inl (
      Stacked-order m page bottom 0 n n top false (omega arith) h j k (omega arith) (ground arith) q
        live live')
  | inr more ↦ inr (
      Stacked-order m page bottom 0 n n top false (omega arith) h k j (omega arith) (ground arith) p
        live' live)
]

-- Memories with the same slots and records hold the same stack.
pub Stacked-Agree :
    (m m' : Mem) (page bottom i left n top : ℕ) (hole : Bool)
    → i + left ≡ n
    → SameSlots m m' page i n
    → Agree m m' (page + bottom) (page + top)
    → Stacked m page bottom i left top hole
    → Stacked m' page bottom i left top hole
      × (live_bytes m' page i left ≡ live_bytes m page i left)
Stacked-Agree m m' page bottom i zero n top hole e s a h = (h, refl)
Stacked-Agree m m' page bottom i (suc left) n top hole e s a h =
    let rest =
      Stacked-Agree m m' page bottom (i + 1) left n (next_top (slot_at m page i) top)
        (next_hole (slot_at m page i) hole) (omega arith) (λ j p q. s j (omega arith) q)
        (λ x p q. a x p (omega (arith, next_top-le m page bottom i left top hole h))) h.1 in
    let same = record-Agree m m' page bottom (slot_at m page i) top a in
    rw (s i (omega arith) (omega arith))
      (ground (arith, rest, same, Stacked-head m page bottom i left top hole h))

-- A record written directly under the bottom of a stack extends it.
pub Stacked-snoc :
    (m : Mem) (page bottom i left n top : ℕ) (hole : Bool)
    → i + left ≡ n
    → slot_at m page n ≢ slot_empty
    → Fits m page (slot_at m page n) bottom false
    → Stacked m page bottom i left top hole
    → Stacked m page (slot_at m page n) i (suc left) top hole
      × (live_bytes m page i (suc left)
          ≡ live_bytes m page i left + record_size m page (slot_at m page n))
Stacked-snoc m page bottom i zero n top true e live fits h =
    let same : slot_at m page i ≡ slot_at m page n = ap (slot_at m page) (omega arith) in
    rw same (ground arith)
Stacked-snoc m page bottom i zero n top false e live fits h =
    let same : slot_at m page i ≡ slot_at m page n = ap (slot_at m page) (omega arith) in
    rw same (ground arith)
Stacked-snoc m page bottom i (suc left) n top hole e live fits h =
    let rest =
      Stacked-snoc m page bottom (i + 1) left n (next_top (slot_at m page i) top)
        (next_hole (slot_at m page i) hole) (omega arith) live fits h.1 in
    ((h.0, rest.0), omega (arith, rest.1))

-- A stack may start higher, once there is a hole.
pub Stacked-weaken :
    (m : Mem) (page bottom i left top top' : ℕ) (hole : Bool)
    → top ≤ top'
    → Stacked m page bottom i left top hole
    → Stacked m page bottom i left top' true
Stacked-weaken m page bottom i zero top top' true e h = omega arith
Stacked-weaken m page bottom i zero top top' false e h = omega arith
Stacked-weaken m page bottom i (suc left) top top' true e h = ground (
  arith,
  Stacked-weaken m page bottom (i + 1) left (next_top (slot_at m page i) top)
      (next_top (slot_at m page i) top') (next_hole (slot_at m page i) true) (ground arith) h.1,
)
Stacked-weaken m page bottom i (suc left) top top' false e h = ground (
  arith,
  Stacked-weaken m page bottom (i + 1) left (next_top (slot_at m page i) top)
      (next_top (slot_at m page i) top') (next_hole (slot_at m page i) false) (ground arith) h.1,
)
