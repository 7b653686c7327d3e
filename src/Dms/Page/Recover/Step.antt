-- ===== src/Dms/Page/Recover/Step.antt =====
-- One round of the loop in `_recoverSpace` of dms/dms.cpp: what it adds to what the later rounds do.
use emeralddb_src.Base.{
  ℕ, suc, ◌+◌, ◌*◌, ◌≤◌, ◌<◌, ◌≡◌, refl, ap, subst, sym, ◌∙◌, ◌≢◌, ◌⊎◌, inl, inr, Bool, true, false,
  List, arith, ◌==◌, Bool-cases,
}
use emeralddb_src.Memory.{Mem, Agree, load32-Agree, load32_shift}
use emeralddb_src.Dms.Layout.{
  page_size, slot_empty, slot_address, slot_at, record_size, record_flag,
}
use emeralddb_src.Dms.Page.Invariant.{Below, Stored, Stacked, live_bytes, next_top, next_hole}
use emeralddb_src.Dms.Page.Stack.{Stacked-Agree, Stacked-at, Stacked-head}
use emeralddb_src.Dms.Page.Stored.{Stored-Agree, Stored-moved}

-- `m'` has the records of the slots from `i` up to `n` moved up to lie directly under `right`.
pub record Recovered (m m' : Mem) (page bottom i left n right : ℕ) (hole : Bool) : Type 0 where
  pub stacked : Stacked m' page bottom i left right hole
  pub bytes : live_bytes m' page i left ≡ live_bytes m page i left
  pub frame :
      (x : ℕ)
      → (x < slot_address page i) ⊎ (slot_address page n ≤ x)
      → (x < page + bottom) ⊎ (page + right ≤ x)
      → m' x ≡ m x
  pub kept :
      (j : ℕ) → i ≤ j → j < n → (object : List ℕ) → Stored m page j object → Stored m' page j object
  pub gone :
      (j : ℕ) → i ≤ j → j < n → slot_at m page j ≡ slot_empty → slot_at m' page j ≡ slot_empty

-- The rest of the loop leaves a slot before it as it is.
slot_before :
    {m m' : Mem} {page bottom i left n right : ℕ} {hole : Bool}
    → Recovered m m' page bottom i left n right hole
    → (j : ℕ) → j < i
    → 28 + 4 * n ≤ bottom
    → i ≤ n
    → slot_at m' page j ≡ slot_at m page j
slot_before {m} {m'} {page} {bottom} {i} {left} {n} {right} r j h room le =
    load32-Agree m m' (slot_address page j) (slot_address page j) (slot_address page j + 4)
      (λ x a b. r.frame x (omega arith) (omega arith)) (omega arith) (omega arith)

-- The rest of the loop leaves a record above it as it is.
bytes_above :
    {m m' : Mem} {page bottom i left n right : ℕ} {hole : Bool}
    → Recovered m m' page bottom i left n right hole
    → 28 + 4 * n ≤ bottom
    → bottom ≤ right
    → (hi : ℕ) → Agree m m' (page + right) hi
bytes_above r room le hi x a b = r.frame x (omega arith) (omega arith)

module _ (m : Mem) (page bottom i left n top right : ℕ) (hole : Bool) (e : i + suc left ≡ n)
    (room : 28 + 4 * n ≤ bottom) (h : Stacked m page bottom i (suc left) top hole)
    (under : top ≤ right) (small : right ≤ page_size) where
  -- An empty slot.
  pub Recovered-empty :
      (m' : Mem)
      → slot_at m page i ≡ slot_empty
      → Recovered m m' page bottom (i + 1) left n right true
      → Recovered m m' page bottom i (suc left) n right hole
  Recovered-empty m' empty r =
      let same = slot_before r i (omega arith) room (omega arith) ∙ empty in
      record {
        stacked = rw same ((λ z. absurd (z refl)), r.stacked);
        bytes = rw (same, empty) (ground (arith, r.bytes));
        frame = λ x a b. r.frame x (omega arith) b;
        kept = λ j a b object s. elim (Bool-cases (i == j)) [
          | inl here ↦ absurd (s.live (ap (slot_at m page) (ground arith) ∙ empty))
          | inr there ↦ r.kept j (ground arith) b object s
        ];
        gone = λ j a b z. elim (Bool-cases (i == j)) [
          | inl here ↦ ap (slot_at m' page) (ground arith) ∙ same
          | inr there ↦ r.gone j (ground arith) b z
        ];
      }

pub Below-of_eq : (hole : Bool) {a b : ℕ} → a ≡ b → Below hole a b
Below-of_eq true e = omega arith
Below-of_eq false e = e

-- A live slot, whose record the step moves to the offset `to` (its own, before the first hole).
module _ (m m1 : Mem) (page bottom i left n top right to : ℕ) (hole : Bool) (e : i + suc left ≡ n)
    (room : 28 + 4 * n ≤ bottom) (h : Stacked m page bottom i (suc left) top hole)
    (under : top ≤ right) (small : right ≤ page_size) (live : slot_at m page i ≢ slot_empty)
    (fits : to + record_size m page (slot_at m page i) ≡ right) (slot : slot_at m1 page i ≡ to)
    (moved : (k : ℕ)
      → k < record_size m page (slot_at m page i)
      → m1 (page + to + k) ≡ m (page + slot_at m page i + k))
    (frame : (x : ℕ)
      → (x < slot_address page i) ⊎ (slot_address page (i + 1) ≤ x)
      → (x < page + to) ⊎ (page + right ≤ x)
      → m1 x ≡ m x) where
  old :
      (bottom ≤ slot_at m page i)
      × (8 ≤ record_size m page (slot_at m page i))
      × (slot_at m page i + record_size m page (slot_at m page i) ≤ top)
  old = Stacked-head m page bottom i left top hole h live

  next_is_slot : next_top (slot_at m page i) top ≡ slot_at m page i
  next_is_slot = ground arith

  next_is_hole : next_hole (slot_at m page i) hole ≡ hole
  next_is_hole = ground arith

  later : (j : ℕ) → i + 1 ≤ j → j < n → slot_at m1 page j ≡ slot_at m page j
  later j a b =
      load32-Agree m m1 (slot_address page j) (slot_address page j) (slot_address page j + 4)
        (λ x c d. frame x (omega arith) (omega (arith, old.0, old.2))) (omega arith) (omega arith)

  under_slot : Agree m m1 (page + bottom) (page + slot_at m page i)
  under_slot x a b = frame x (omega arith) (omega (arith, old.2))

  pub tail_same :
      Stacked m1 page bottom (i + 1) left (slot_at m page i) hole
      × (live_bytes m1 page (i + 1) left ≡ live_bytes m page (i + 1) left)
  tail_same =
      Stacked-Agree m m1 page bottom (i + 1) left n (slot_at m page i) hole (omega arith) later
        under_slot (rw (next_is_slot, next_is_hole) at (h.1))

  module _ (m' : Mem) (r : Recovered m1 m' page bottom (i + 1) left n to hole) where
    slot_to : slot_at m' page i ≡ to
    slot_to = slot_before r i (omega arith) room (omega arith) ∙ slot

    record_to :
        (k : ℕ)
        → k < record_size m page (slot_at m page i)
        → m' (page + to + k) ≡ m (page + slot_at m page i + k)
    record_to k a = r.frame (page + to + k) (omega (arith, old.0, old.2)) (omega arith) ∙ moved k a

    header_to :
        (record_size m' page to ≡ record_size m page (slot_at m page i))
        × (record_flag m' page to ≡ record_flag m page (slot_at m page i))
    header_to =
        let word =
          load32_shift m m' (page + slot_at m page i) (page + to)
            (record_size m page (slot_at m page i)) in
        (
          word 0 (page + to) (page + slot_at m page i) record_to (omega (arith, old.1))
              (omega arith) (omega arith),
          word 4 (page + to + 4) (page + slot_at m page i + 4) record_to (omega (arith, old.1))
              (omega arith) (omega arith),
        )

    to_live : (to == slot_empty) ≡ false
    to_live = ground arith

    kept_here : (object : List ℕ) → Stored m page i object → Stored m' page i object
    kept_here object s =
        Stored-moved m m' page i object to slot_to (omega arith)
          (λ k b. record_to k (omega (arith, s.sized))) s

    kept_later :
        (j : ℕ) (object : List ℕ)
        → i + 1 ≤ j
        → j < n
        → Stored m page j object
        → Stored m' page j object
    kept_later j object a b s =
        let t =
          Stacked-at m page bottom (i + 1) left n (slot_at m page i) hole (omega arith)
            (rw (next_is_slot, next_is_hole) at (h.1)) j a b s.live in
        r.kept j a b object (
          Stored-Agree m m1 page j object bottom (slot_at m page i) (later j a b) under_slot t.above
            (omega (arith, t.under, s.sized)) s)

    pub Recovered-live : Recovered m m' page bottom i (suc left) n right hole
    Recovered-live = record {
      stacked = rw slot_to (
        (λ z. (
          omega (arith, header_to.0, old.1),
          header_to.1 ∙ (h.0 live).1,
          Below-of_eq hole (omega (arith, header_to.0)),
        )),
        rw to_live r.stacked,
      );
      bytes = rw slot_to (ground (arith, r.bytes, tail_same.1, header_to.0, old.1));
      frame = λ x a b.
          r.frame x (omega arith) (omega (arith, old.0, old.2))
          ∙ frame x (omega arith) (omega (arith, old.0, old.2));
      kept = λ j a b object s. elim (Bool-cases (i == j)) [
        | inl here ↦
            let q : j ≡ i = ground arith in
            subst (λ x. Stored m' page x object) (sym q)
              (kept_here object (subst (λ x. Stored m page x object) q s))
        | inr there ↦ kept_later j object (ground arith) b s
      ];
      gone = λ j a b z. elim (Bool-cases (i == j)) [
        | inl here ↦ absurd (live (ap (slot_at m page) (ground arith) ∙ z))
        | inr there ↦ r.gone j (ground arith) b (later j (ground arith) b ∙ z)
      ];
    }
