-- ===== src/Dms/Page/Remove.antt =====
-- `remove` of dms/dms.cpp on the invariant of a page and its records.
use emeralddb_src.Base.{
  ℕ, zero, suc, ◌+◌, ◌≤◌, ◌<◌, ◌≡◌, refl, ap, ◌∙◌, ◌≢◌, ◌⊎◌, inl, inr, Bool, false, List, arith,
  ◌==◌, Bool-cases,
}
use emeralddb_src.Memory.{Mem, Agree, load32-Agree}
use emeralddb_src.Dms.Layout.{
  page_size, slot_empty, num_slots, free_offset, slot_address, slot_at, record_size, record_flag,
}
use emeralddb_src.Dms.Page.Drop.{Removed}
use emeralddb_src.Dms.Page.Invariant.{
  IsPage-of, IsPage, Stored, Stacked, live_bytes, next_top, next_hole,
}
use emeralddb_src.Dms.Page.Stack.{
  Stacked-Agree, Stacked-at, Stacked-apart, Stacked-head, Stacked-weaken, next_top-le, record-Agree,
  InStack,
}

-- The slots but `k` are the same in both memories, from `i` up to `n`.
abbrev OtherSlots : Mem → Mem → ℕ → ℕ → ℕ → ℕ → Type 0
OtherSlots m m' page k i n = (j : ℕ) → i ≤ j → j < n → j ≢ k → slot_at m' page j ≡ slot_at m page j

-- The bytes from `lo` up to `hi` are the same, but for the flag of the record at `slot`.
abbrev AgreeBut : Mem → Mem → ℕ → ℕ → ℕ → ℕ → Type 0
AgreeBut m m' page slot lo hi =
    (x : ℕ)
    → page + lo ≤ x
    → x < page + hi
    → (x < page + slot + 4) ⊎ (page + slot + 8 ≤ x)
    → m' x ≡ m x

Stacked-remove :
    (m m' : Mem) (page bottom k i left n top : ℕ) (hole : Bool)
    → i + left ≡ n
    → i ≤ k
    → k < n
    → slot_at m page k ≢ slot_empty
    → slot_at m' page k ≡ slot_empty
    → OtherSlots m m' page k i n
    → AgreeBut m m' page (slot_at m page k) bottom top
    → Stacked m page bottom i left top hole
    → Stacked m' page bottom i left top hole
      × (live_bytes m' page i left + record_size m page (slot_at m page k)
          ≡ live_bytes m page i left)
Stacked-remove m m' page bottom k i zero n top hole e p q live gone s a h = absurd (omega arith)
Stacked-remove m m' page bottom k i (suc left) n top hole e p q live gone s a h =
    elim (Bool-cases (i == k)) [
      | inl same ↦
          let eq : i ≡ k = ground arith in
          let here : slot_at m page i ≡ slot_at m page k = ap (slot_at m page) eq in
          let there : slot_at m' page i ≡ slot_empty = ap (slot_at m' page) eq ∙ gone in
          let t = next_top (slot_at m page i) top in
          let low : t ≤ top = next_top-le m page bottom i left top hole h in
          let rest =
            Stacked-Agree m m' page bottom (i + 1) left n t (next_hole (slot_at m page i) hole)
              (omega arith) (λ j b c. s j (omega arith) c (omega arith))
              (λ x b c. a x b (omega arith) (ground arith)) h.1 in
          let up =
            Stacked-weaken m' page bottom (i + 1) left t top (next_hole (slot_at m page i) hole) low
              rest.0 in
          rw there ((λ z. absurd (z refl), up), ground arith)
      | inr other ↦
          let ne : i ≢ k = ground arith in
          let rest =
            Stacked-remove m m' page bottom k (i + 1) left n (next_top (slot_at m page i) top)
              (next_hole (slot_at m page i) hole) (omega arith) (omega arith) q live gone
              (λ j b c d. s j (omega arith) c d)
              (λ x b c d. a x b (omega (arith, next_top-le m page bottom i left top hole h)) d)
              h.1 in
          let below =
            Stacked-at m page bottom (i + 1) left n (next_top (slot_at m page i) top)
              (next_hole (slot_at m page i) hole) (omega arith) h.1 k (omega arith) q live in
          let head = Stacked-head m page bottom i left top hole h in
          let header : slot_at m page i ≢ slot_empty
              → (record_size m' page (slot_at m page i) ≡ record_size m page (slot_at m page i))
                × (record_flag m' page (slot_at m page i) ≡ record_flag m page (slot_at m page i)) =
            λ l.
              record-Agree m m' page (slot_at m page i) (slot_at m page i) (slot_at m page i + 8)
                (λ x b c.
                  a x (omega (arith, (head l).0)) (omega (arith, (head l).1, (head l).2))
                    (ground (arith, below.header, below.under)))
                (omega arith) (omega arith) in
          rw (s i (omega arith) (omega arith) ne) (ground (arith, rest, header, head))
    ]

module _ {m m' : Mem} {page k : ℕ} (rem : Removed m m' page k) (valid : IsPage m page)
    (bound : k < num_slots m page) (live : slot_at m page k ≢ slot_empty) where
  in_stack :
      (j : ℕ)
      → j < num_slots m page
      → slot_at m page j ≢ slot_empty
      → InStack m page (free_offset m page) (slot_at m page j) page_size
  in_stack = λ j h l.
      Stacked-at m page (free_offset m page) 0 (num_slots m page) (num_slots m page) page_size false
        (omega arith) valid.stacked j (omega arith) h l

  other_slots : OtherSlots m m' page k 0 (num_slots m page)
  other_slots j p q ne =
      load32-Agree m m' (slot_address page j) (slot_address page j) (slot_address page j + 4)
        (λ x a b.
          rem.frame x (omega arith) (omega arith)
            (omega (arith, (in_stack k bound live).above, valid.room, valid.slots_end)))
        (omega arith) (omega arith)

  other_bytes : AgreeBut m m' page (slot_at m page k) (free_offset m page) page_size
  other_bytes x a b c =
      rem.frame x (omega (arith, valid.room, valid.slots_end))
        (omega (arith, valid.room, valid.slots_end)) c

  eye : Agree m m' page (page + 12)
  eye x a b =
      rem.frame x (omega arith) (omega arith)
        (omega (arith, (in_stack k bound live).above, valid.room, valid.slots_end))

  shrunk :
      Stacked m' page (free_offset m page) 0 (num_slots m page) page_size false
      × (live_bytes m' page 0 (num_slots m page) + record_size m page (slot_at m page k)
          ≡ live_bytes m page 0 (num_slots m page))
  shrunk =
      Stacked-remove m m' page (free_offset m page) k 0 (num_slots m page) (num_slots m page)
        page_size false (omega arith) (omega arith) bound live rem.gone other_slots other_bytes
        valid.stacked

  pub Removed-IsPage : IsPage m' page
  Removed-IsPage =
      IsPage-of m m' page (num_slots m page) (free_offset m page) (λ x a b. eye x a (omega arith))
        rem.slots (omega (arith, rem.ends, valid.slots_end)) rem.free
        (omega (arith, valid.room, valid.slots_end)) shrunk.0
        (omega (arith, rem.space, shrunk.1, valid.slots_end, valid.space)) valid

  pub Removed-Stored :
      (j : ℕ) (bytes : List ℕ)
      → j < num_slots m page
      → j ≢ k
      → Stored m page j bytes
      → Stored m' page j bytes
  Removed-Stored j bytes h ne s =
      let e = other_slots j (omega arith) h ne in
      let t = in_stack j h s.live in
      let u = in_stack k bound live in
      let apart =
        Stacked-apart m page (free_offset m page) (num_slots m page) page_size valid.stacked j k h
          bound ne s.live live in
      let agree : Agree m m' (page + slot_at m page j)
          (page + slot_at m page j + record_size m page (slot_at m page j)) =
        λ x a b.
          other_bytes x (omega (arith, t.above)) (omega (arith, t.under))
            (omega (arith, apart, u.header)) in
      let r =
        record-Agree m m' page (slot_at m page j) (slot_at m page j)
          (slot_at m page j + record_size m page (slot_at m page j))
          (λ x a b. agree x a (omega arith)) (omega arith) (omega (arith, t.header)) in
      record {
        live = rw e s.live;
        normal = rw e (r.1 ∙ s.normal);
        sized = rw e (r.0 ∙ s.sized);
        holds = rw e λ i l.
            agree (page + slot_at m page j + 8 + i) (omega arith) (omega (arith, s.sized))
            ∙ s.holds i l;
      }
