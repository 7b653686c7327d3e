-- ===== src/Msg/Build.antt =====
-- msgCheckBuffer of msg/msg.cpp, and the header that every message starts with.
use emeralddb_src.Base.{
  ℕ, ◌+◌, ◌≤◌, ◌<◌, ◌≡◌, refl, ◌∙◌, ◌⊎◌, Option, none, arith, inl, inr, Bool-cases, ◌==◌,
  Option-cases, false,
}
use emeralddb_src.Core.{Rc, ok, oom, invalidarg}
use emeralddb_src.Memory.{
  lt_int, Mem, store32, load32-store32, load32-store32_ne, store32_frame, move, move_frame,
}
use emeralddb_src.Msg.{Buffer, check_buffer, put_header, check_header, build, message_len, op_code}

-- What a builder promises for a message of `size` bytes: `P` holds of the message and all that it wrote
-- lies in the buffer, or the buffer had to grow, `realloc` failed, and nothing has changed.
abbrev pub Built : Option ℕ → Buffer → ℕ → (Mem → ℕ → Type 0) → Rc × Buffer → Type 0
Built answer b size P (ok, b') =
    P b'.mem b'.start
    × (size ≤ b'.size)
    × (b'.size < 2147483648)
    × ((x : ℕ) → (x < b'.start) ⊎ (b'.start + b'.size ≤ x) → b'.mem x ≡ b.mem x)
Built answer b size P (rc, b') = (rc ≡ oom) × (b.size < size) × (answer ≡ none) × (b' ≡ b)

pub Built-cases :
    (answer : Option ℕ) (b : Buffer) (size : ℕ) (P : Mem → ℕ → Type 0) (r : Rc × Buffer)
    → Built answer b size P r
    → P r.1.mem r.1.start
        × (size ≤ r.1.size)
        × (r.1.size < 2147483648)
        × ((x : ℕ) → (x < r.1.start) ⊎ (r.1.start + r.1.size ≤ x) → r.1.mem x ≡ b.mem x)
      ⊎ (r.0 ≡ oom) × (b.size < size) × (answer ≡ none) × (r.1 ≡ b)
Built-cases answer b size P (ok, b') h = inl h
Built-cases answer b size P (rc, b') h = inr h

pub Built-map :
    (answer : Option ℕ) (b : Buffer) (size : ℕ) {P Q : Mem → ℕ → Type 0}
    → ((m : Mem) (p : ℕ) → P m p → Q m p)
    → (r : Rc × Buffer) → Built answer b size P r
    → Built answer b size Q r
Built-map answer b size f (ok, b') (h, fits, bound, frame) =
    (f b'.mem b'.start h, fits, bound, frame)
Built-map answer b size f (rc, b') h = h

-- What `write` puts at a place lies in the `size` bytes there.
abbrev pub WritesInside : (Mem → ℕ → Mem) → ℕ → Type 0
WritesInside write size = (m : Mem) (p x : ℕ) → (x < p) ⊎ (p + size ≤ x) → write m p x ≡ m x

pub build-Built :
    (answer : Option ℕ) (b : Buffer) (size : ℕ) (write : Mem → ℕ → Mem) (P : Mem → ℕ → Type 0)
    → size < 2147483648
    → b.size < 2147483648
    → WritesInside write size
    → ((m : Mem) (p : ℕ) → P (write m p) p)
    → Built answer b size P (build answer b size write)
unfolding build check_buffer
build-Built answer b size write P small sized inside holds =
    elim (Bool-cases (lt_int b.size size)) [
      | inr enough ↦
          rw (enough, build)
            (holds b.mem b.start, ground arith, sized, λ x h. inside b.mem b.start x (ground arith))
      | inl grows ↦
          let positive : lt_int size 0 ≡ false = ground arith in
          elim (Option-cases answer) [
            | inl n ↦ rw (grows, positive, n, build) (refl, ground arith, refl, refl)
            | inr (a, e) ↦
                rw (grows, positive, e, build)
                  (
                    holds (move b.mem a b.start b.size) a,
                    omega arith,
                    small,
                    λ x h.
                        inside (move b.mem a b.start b.size) a x h
                        ∙ move_frame b.mem a b.start b.size x (ground arith),
                  )
          ]
    ]

-- The words of a message.
pub put_header_words :
    (m : Mem) (p size op : ℕ)
    → size < 4294967296
    → op < 4294967296
    → (message_len (put_header m p size op) p ≡ size) × (op_code (put_header m p size op) p ≡ op)
unfolding put_header
put_header_words m p size op h k = ground (
  arith,
  load32-store32_ne (store32 m p size) (p + 4) p op,
  load32-store32 m p size,
  load32-store32 (store32 m p size) (p + 4) op,
)

pub put_header_frame :
    (m : Mem) (p size op x : ℕ) → (x < p) ⊎ (p + 8 ≤ x) → put_header m p size op x ≡ m x
unfolding put_header
put_header_frame m p size op x h =
    ground (arith, store32_frame m p size x, store32_frame (store32 m p size) (p + 4) op x)

pub check_header-ok :
    (m : Mem) (p size least op : ℕ)
    → message_len m p ≡ size
    → op_code m p ≡ op
    → least ≤ size
    → size < 2147483648
    → check_header m p least op ≡ ok
unfolding check_header
check_header-ok m p size least op h k l s = ground arith

pub check_header_other :
    (m : Mem) (p least op : ℕ) → (op_code m p ≡ op → ⊥) → check_header m p least op ≡ invalidarg
unfolding check_header
check_header_other m p least op h = ground arith

pub check_header-accepts :
    (m : Mem) (p least op : ℕ) → check_header m p least op ≡ ok → op_code m p ≡ op
unfolding check_header
check_header-accepts m p least op h = elim (Bool-cases (op_code m p == op)) [
  | inl e ↦ ground arith
  | inr e ↦ absurd (clash (check_header_other m p least op (λ d. ground arith)) h)
]
  where
    clash : {rc : Rc} → rc ≡ invalidarg → rc ≡ ok → ⊥
    clash a b = cc
