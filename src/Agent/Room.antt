-- ===== src/Agent/Room.antt =====
-- The receive buffer of pmdAgentEntryPoint (pmd/pmdAgent.cpp).
use emeralddb_src.Base.{
  ℕ, ◌+◌, ◌<◌, ◌≤◌, ◌≡◌, refl, ◌⊎◌, inl, inr, Option, none, arith, Bool-cases, Option-cases, true,
  false,
}
use emeralddb_src.Core.{Rc, ok, oom, invalidarg}
use emeralddb_src.Memory.{load32, load32-store32, lt_int, add32}
use emeralddb_src.Agent.Loop.{Agent, round_up, make_room}

-- What make_room comes to for a packet of `len` bytes: there is room for the packet and a zero, and the buffer
-- begins with the length if it did before; or the packet is refused, being longer than 2 ^ 31 - 4096 bytes; or malloc
-- failed.
abbrev pub HasRoom : Option ℕ → ℕ → Agent → Rc × Agent → Type 0
HasRoom answer len a (rc, a') =
    (rc ≡ ok)
      × (len < a'.receive_size)
      × (a'.receive_size < 2147483648)
      × (load32 a'.mem a'.receive ≡ len)
    ⊎ (rc ≡ invalidarg) × (2147479552 ≤ len) × (a' ≡ a)
    ⊎ (rc ≡ oom) × (answer ≡ none) × (a' ≡ a)

pub round_up_lem : (x : ℕ) → x < 2147479553 → (x ≤ round_up x) × (round_up x ≤ x + 4095)
unfolding round_up
round_up_lem x h = ground arith

pub round_up_negative : (x : ℕ) → 2147479553 ≤ x → x < 2147483648 → lt_int (round_up x) 0 ≡ true
unfolding round_up
round_up_negative x h k = ground arith

-- For a packet length of less than 2 ^ 31 - 1 that stands at the start of a receive buffer of less
-- than 2 ^ 31 bytes, the agent has room for the packet and a zero, with the length at the start of
-- the buffer; or it refuses the packet, which is of 2 ^ 31 - 4096 bytes or more; or malloc failed.
pub make_room-HasRoom :
    (answer : Option ℕ) (len : ℕ) (a : Agent)
    → len < 2147483647
    → a.receive_size < 2147483648
    → load32 a.mem a.receive ≡ len
    → HasRoom answer len a (make_room answer len a)
unfolding make_room
make_room-HasRoom answer len a small sized word =
    elim (Bool-cases (lt_int a.receive_size (add32 len 1))) [
      | inr enough ↦ rw (enough, make_room) (inl (refl, ground arith, sized, word))
      | inl grows ↦ elim (short_or_long len) [
        | inr long ↦
            let negative = round_up_negative (add32 len 1) (omega arith) (omega arith) in
            rw (grows, negative, make_room) (inr (inl (refl, long, refl)))
        | inl short ↦
            let fits = round_up_lem (add32 len 1) (omega arith) in
            let positive : lt_int (round_up (add32 len 1)) 0 ≡ false = ground (arith, fits) in
            elim (Option-cases answer) [
              | inl n ↦ rw (grows, positive, n, make_room) (inr (inr (refl, refl, refl)))
              | inr (p, e) ↦
                  let room : len < round_up (add32 len 1) = omega (arith, fits) in
                  let below : round_up (add32 len 1) < 2147483648 = omega (arith, fits) in
                  rw (grows, positive, e, make_room)
                    (inl (refl, room, below, load32-store32 a.mem p len (omega arith)))
            ]
      ]
    ]
  where
    short_or_long : (len : ℕ) → (len < 2147479552) ⊎ (2147479552 ≤ len)
    short_or_long len = omega arith

-- A packet length of 2 ^ 31 - 1 bytes is accepted with the receive buffer as it is, of any size
-- below 2 ^ 31.
pub make_room_overflow :
    (answer : Option ℕ) (a : Agent)
    → a.receive_size < 2147483648
    → make_room answer 2147483647 a ≡ (ok, a)
unfolding make_room
make_room_overflow answer a sized =
    let e : lt_int a.receive_size (add32 2147483647 1) ≡ false = ground arith in
    rw (e, make_room) refl
