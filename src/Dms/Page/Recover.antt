-- ===== src/Dms/Page/Recover.antt =====
-- The loop of `_recoverSpace` of dms/dms.cpp over the slots of a page.
pub mod Step
use emeralddb_src.Base.{
  ℕ, zero, suc, ◌+◌, ◌-◌, ◌*◌, ◌≤◌, ◌<◌, ◌≡◌, refl, ap, subst, sym, ◌∙◌, ◌≢◌, ◌⊎◌, inl, inr, Bool,
  true, false, List, arith, length, ◌==◌, if◌then◌else◌, Bool-cases,
}
use emeralddb_src.Memory.{
  Mem, Agree, Holds, load32, store32, move, load32-Agree, load32-store32, load32-store32_ne,
  load32-move_ne, store32_frame, move_frame, move_inside, load32_shift,
}
use emeralddb_src.Dms.Layout.{
  page_size, slot_empty, flag_normal, num_slots, slot_offset, free_space, free_offset, slot_address,
  slot_at, record_size, record_flag, has_eye_catcher, max_record,
}
use emeralddb_src.Dms.Page.{
  Recovery, recover_slot, recover_from, recover_space, needs_recovery, lacks_space,
}
use emeralddb_src.Dms.Page.Invariant.{
  IsPage-of, Below, Fits, IsPage, Stored, Stacked, live_bytes, next_top, next_hole,
}
use emeralddb_src.Dms.Page.Stack.{
  Stacked-le, Stacked-Agree, Stacked-at, Stacked-head, next_top-le, record-Agree, InStack,
}
use emeralddb_src.Dms.Page.Stored.{Stored-Agree, Stored-moved}
use Step.{Recovered, Recovered-empty, Recovered-live, tail_same, Below-of_eq}

-- The three ways through the body of the loop.
module _ (page i : ℕ) (s : Recovery) where
  recover_slot-empty :
      slot_at s.mem page i ≡ slot_empty → recover_slot page i s ≡ record s { is_recover = true }
  unfolding recover_slot
  recover_slot-empty e = rw e

  recover_slot-still :
      slot_at s.mem page i ≢ slot_empty
      → s.is_recover ≡ false
      → recover_slot page i s
        ≡ record s { right = s.right - record_size s.mem page (slot_at s.mem page i) }
  unfolding recover_slot
  recover_slot-still e f = ground arith

  recover_slot-move :
      slot_at s.mem page i ≢ slot_empty
      → s.is_recover ≡ true
      → recover_slot page i s ≡ (
          let size = record_size s.mem page (slot_at s.mem page i) in
          let right = s.right - size in
          record s {
            mem =
                store32
                  (move s.mem right (page + slot_at s.mem page i) size)
                  (slot_address page i)
                  (right - page);
            right = right;
          })
  unfolding recover_slot
  recover_slot-move e f = ground arith

Below-trans : (hole : Bool) (a b c : ℕ) → Below hole a b → Below hole b c → Below hole a c
Below-trans true a b c p q = omega arith
Below-trans false a b c p q = p ∙ q

Below-le : (hole : Bool) (a b : ℕ) → Below hole a b → a ≤ b
Below-le true a b p = p
Below-le false a b p = omega arith

-- What the loop does from slot `i` on.
abbrev Recovers : ℕ → ℕ → ℕ → ℕ → ℕ → Type 0
Recovers page bottom i left n =
    (top right : ℕ) (s : Recovery)
    → right ≤ page_size
    → s.right ≡ page + right
    → Below s.is_recover top right
    → Stacked s.mem page bottom i left top s.is_recover
    → Recovered s.mem (recover_from left page i s).mem page bottom i left n right s.is_recover

module _ (page bottom i left n top right : ℕ) (s : Recovery) (e : i + suc left ≡ n)
    (room : 28 + 4 * n ≤ bottom) (small : right ≤ page_size) (at : s.right ≡ page + right)
    (below : Below s.is_recover top right)
    (h : Stacked s.mem page bottom i (suc left) top s.is_recover)
    (rest : Recovers page bottom (i + 1) left n) where
  abbrev slot : ℕ
  slot = slot_at s.mem page i

  abbrev size : ℕ
  size = record_size s.mem page slot

  under : top ≤ right
  under = Below-le s.is_recover top right below

  abbrev After : Recovery → Type 0
  After t = Recovered s.mem t.mem page bottom i (suc left) n right s.is_recover

  recovers_empty :
      slot ≡ slot_empty → After (recover_from left page (i + 1) (recover_slot page i s))
  recovers_empty gone =
      subst (λ t. After (recover_from left page (i + 1) t)) (sym (recover_slot-empty page i s gone))
        (Recovered-empty s.mem page bottom i left n top right s.is_recover e room h under small _
          gone (rest top right (record s { is_recover = true }) small at under (rw gone at (h.1))))

  module _ (live : slot ≢ slot_empty) where
    recovers_still :
        s.is_recover ≡ false → After (recover_from left page (i + 1) (recover_slot page i s))
    recovers_still still =
        let fits : slot + size ≡ right = (rw still at ((h.0 live).2)) ∙ (rw still at below) in
        let tail =
          tail_same s.mem s.mem page bottom i left n top right slot s.is_recover e room h under
            small live fits refl (λ k a. refl) (λ x a b. refl) in
        subst (λ t. After (recover_from left page (i + 1) t))
          (sym (recover_slot-still page i s live still))
          (Recovered-live s.mem s.mem page bottom i left n top right slot s.is_recover e room h
            under small live fits refl (λ k a. refl) (λ x a b. refl) _
            (rest slot slot (record s { right = s.right - size }) (omega arith) (omega arith)
              (Below-of_eq s.is_recover refl) tail.0))

    abbrev from : ℕ
    from = page + slot

    abbrev to : ℕ
    to = s.right - size

    abbrev moved_mem : Mem
    moved_mem = store32 (move s.mem to from size) (slot_address page i) (to - page)

    module _ (moving : s.is_recover ≡ true) where
      bounds : (bottom ≤ slot) × (8 ≤ size) × (slot + size ≤ right)
      bounds =
          let b = Stacked-head s.mem page bottom i left top s.is_recover h live in
          (b.0, b.1, omega (arith, b.2, under))

      abbrev lifted : ℕ
      lifted = right - size

      lifted_lem : to ≡ page + lifted
      lifted_lem = omega (arith, bounds.2)

      moved_slot : slot_at moved_mem page i ≡ lifted
      moved_slot =
          load32-store32 (move s.mem to from size) (slot_address page i) (to - page)
            (omega (arith, lifted_lem))
          ∙ omega (arith, lifted_lem)

      moved_record : (k : ℕ) → k < size → moved_mem (page + lifted + k) ≡ s.mem (page + slot + k)
      moved_record k a =
          let same : page + lifted + k ≡ to + k = omega (arith, lifted_lem) in
          store32_frame (move s.mem to from size) (slot_address page i) (to - page)
            (page + lifted + k) (omega (arith, bounds.0, bounds.2))
          ∙ ap (move s.mem to from size) same
          ∙ move_inside s.mem to from size k a

      moved_frame :
          (x : ℕ)
          → (x < slot_address page i) ⊎ (slot_address page (i + 1) ≤ x)
          → (x < page + lifted) ⊎ (page + right ≤ x)
          → moved_mem x ≡ s.mem x
      moved_frame x a b =
          store32_frame (move s.mem to from size) (slot_address page i) (to - page) x (omega arith)
          ∙ move_frame s.mem to from size x (omega (arith, lifted_lem, bounds.2))

      recovers_move : After (recover_from left page (i + 1) (recover_slot page i s))
      recovers_move =
          let fits : lifted + size ≡ right = omega (arith, bounds.2) in
          let hole = s.is_recover in
          let tail =
            tail_same s.mem moved_mem page bottom i left n top right lifted hole e room h under
              small live fits moved_slot moved_record moved_frame in
          let next : Recovery = record s { mem = moved_mem; right = to } in
          subst (λ t. After (recover_from left page (i + 1) t))
            (sym (recover_slot-move page i s live moving))
            (Recovered-live s.mem moved_mem page bottom i left n top right lifted hole e room h
              under small live fits moved_slot moved_record moved_frame _
              (rest slot lifted next (omega arith) lifted_lem (rw moving (omega (arith, bounds.2)))
                tail.0))

recovers :
    (page bottom i left n : ℕ) → i + left ≡ n → 28 + 4 * n ≤ bottom → Recovers page bottom i left n
unfolding recover_from
recovers page bottom i zero n e room top right s small at below h = record {
  stacked = Below-trans s.is_recover bottom top right h below;
  bytes = refl;
  frame = λ x a b. refl;
  kept = λ j a b object t. t;
  gone = λ j a b z. z;
}
recovers page bottom i (suc left) n e room top right s small at below h =
    let rest = recovers page bottom (i + 1) left n (omega arith) room in
    elim (Bool-cases (slot_at s.mem page i == slot_empty)) [
      | inl empty ↦
          recovers_empty page bottom i left n top right s e room small at below h rest
            (ground arith)
      | inr live ↦ elim (Bool-cases s.is_recover) [
        | inl moving ↦
            recovers_move page bottom i left n top right s e room small at below h rest
              (ground arith) moving
        | inr still ↦
            recovers_still page bottom i left n top right s e room small at below h rest
              (ground arith) still
      ]
    ]

module _ (m : Mem) (page : ℕ) (valid : IsPage m page) where
  recover_space-Recovered :
      Recovered m
        (recover_space m page)
        page
        (free_offset m page)
        0
        (num_slots m page)
        (num_slots m page)
        page_size
        false
  unfolding recover_space
  recover_space-Recovered =
      recovers page (free_offset m page) 0 (num_slots m page) (num_slots m page) (omega arith)
        (omega (arith, valid.room, valid.slots_end)) page_size page_size
        (record { mem = m; right = page + page_size; is_recover = false }) (omega arith) refl refl
        valid.stacked

  -- The recovery changes nothing outside the slots and the part of the page above `free_offset`.
  pub recover_space_frame :
      (x : ℕ)
      → (x < page + 28) ⊎ (page + slot_offset m page ≤ x)
      → (x < page + free_offset m page) ⊎ (page + page_size ≤ x)
      → recover_space m page x ≡ m x
  recover_space_frame x a b = recover_space-Recovered.frame x (omega (arith, valid.slots_end)) b

  pub recover_space_header :
      (k : ℕ) → k < 25 → load32 (recover_space m page) (page + k) ≡ load32 m (page + k)
  recover_space_header k h =
      load32-Agree m (recover_space m page) (page + k) page (page + 28)
        (λ x a b. recover_space_frame x (inl b) (omega (arith, valid.room, valid.slots_end)))
        (omega arith) (omega arith)

  eye : Agree m (recover_space m page) page (page + 12)
  eye x a b = recover_space_frame x (inl (omega arith)) (omega (arith, valid.room, valid.slots_end))

  top_bound : free_offset m page ≤ page_size
  top_bound =
      Stacked-le m page (free_offset m page) 0 (num_slots m page) page_size false valid.stacked

  -- The recovery of a well-formed page moves its records, and leaves a well-formed page that holds
  -- the same objects in the same slots, with the same empty slots.
  pub recover_space-IsPage :
      IsPage (recover_space m page) page
      × ((i : ℕ) (object : List ℕ)
          → i < num_slots m page
          → Stored m page i object
          → Stored (recover_space m page) page i object)
      × ((i : ℕ)
          → i < num_slots m page
          → slot_at m page i ≡ slot_empty
          → slot_at (recover_space m page) page i ≡ slot_empty)
  recover_space-IsPage = (
    IsPage-of m (recover_space m page) page (num_slots m page) (free_offset m page)
        (λ x a b. eye x a (omega arith)) (recover_space_header 12 (omega arith))
        (omega (arith, recover_space_header 16 (omega arith), valid.slots_end))
        (recover_space_header 24 (omega arith)) (omega (arith, valid.room, valid.slots_end))
        recover_space-Recovered.stacked
        (omega (
          arith,
          recover_space_header 20 (omega arith),
          recover_space-Recovered.bytes,
          valid.slots_end,
          valid.space,
        ))
        valid,
    λ i object h s. recover_space-Recovered.kept i (omega arith) h object s,
    λ i h z. recover_space-Recovered.gone i (omega arith) h z,
  )

  -- Whatever the holes of a well-formed page, a recovery does not let `insert` go on.
  pub recover_space_in_vain :
      (size : ℕ)
      → size ≤ max_record
      → needs_recovery m page size ≡ true
      → lacks_space (recover_space m page) page size ≡ true
  unfolding needs_recovery lacks_space
  recover_space_in_vain size small h = ground (
    arith,
    recover_space_header 16 (omega arith),
    recover_space_header 20 (omega arith),
    recover_space_header 24 (omega arith),
    valid.room,
    top_bound,
  )
