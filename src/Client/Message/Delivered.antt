-- ===== src/Client/Message/Delivered.antt =====
-- `recvReply` of client/command.cpp on the bytes of a message, however they are cut.
use emeralddb_src.Base.{
  ℕ, ◌+◌, ◌-◌, ◌≤◌, ◌<◌, ◌≡◌, refl, ap, sym, ◌∙◌, ◌≢◌, ◌⊎◌, inl, inr, List, [], ◌∷◌, ◌++◌, Option,
  none, some, arith, length, length-append, ◌==◌, not, true, false, get_or, suc, zero,
}
use emeralddb_src.Core.{Rc, ok, timeout, rc_word}
use emeralddb_src.Memory.{Mem, copy, fill, load32, load32_shift, lt_int, sub32}
use emeralddb_src.Memory.Puts.{Puts, Puts-append, copy-Puts}
use emeralddb_src.Socket.{
  Received, bytes, closed, interrupted, failed, await, recv_loop, recv, read,
}
use emeralddb_src.Client.Message.{
  Receipt, Answers, Reply, recv_buf_size, recv_patiently, recv_body, use_length, recv_reply,
}

-- The answers are the bytes, cut somehow into parts that are not empty.
abbrev pub IsCut : List ℕ → List Received → Type 0
IsCut s [] = s ≡ []
IsCut s (bytes part ∷ rest) =
    (part ≢ []) × ((later : List ℕ) × (s ≡ part ++ later) × IsCut later rest)
IsCut s (_ ∷ rest) = ⊥

-- After attempts that time out there is one that brings the bytes.
abbrev pub Brings : List ℕ → List Receipt → Type 0
Brings s [] = ⊥
Brings s (t ∷ rest) =
    (await t.selects ≡ some timeout) × Brings s rest
    ⊎ (await t.selects ≡ some ok) × IsCut s t.answers

-- The bytes are received at `p`.
abbrev Gets : List ℕ → Mem → ℕ → Option (Rc × Mem) → Type 0
Gets s m p r = (m' : Mem) × (r ≡ some (ok, m')) × Puts m m' p s

some_bytes : (s : List ℕ) → s ≢ [] → 0 < length s
some_bytes [] h = absurd (h refl)
some_bytes (c ∷ s) h = omega arith

recv_loop-Gets :
    (answers : List Received) (retries : ℕ) (m : Mem) (p : ℕ) (s : List ℕ)
    → length s < 2147483648
    → IsCut s answers
    → Gets s m p (recv_loop answers retries m p (length s))
unfolding recv_loop
recv_loop-Gets [] retries m p s small e =
    rw e (m, refl, record { frame = λ x o. refl; holds = λ i k. absurd (omega arith) })
recv_loop-Gets (bytes part ∷ rest) retries m p s small (some_part, (later, e, cut)) =
    let total = length-append part later in
    let here = some_bytes part some_part in
    let left : not (lt_int 0 (length (part ++ later))) ≡ false = ground (arith, ap length e) in
    let next : sub32 (length (part ++ later)) (length part) ≡ length later =
      omega (arith, ap length e) in
    let (m', got, put) =
      recv_loop-Gets rest retries (copy m p part) (p + length part) later
        (omega (arith, ap length e)) cut in
    rw (e, left, next, got)
      (m', refl, Puts-append m (copy m p part) m' p part later (copy-Puts m p part) put)
recv_loop-Gets (closed ∷ rest) retries m p s small e = absurd e
recv_loop-Gets (interrupted ∷ rest) retries m p s small e = absurd e
recv_loop-Gets (failed ∷ rest) retries m p s small e = absurd e

recv_patiently-Gets :
    (ts : List Receipt) (m : Mem) (p : ℕ) (s : List ℕ)
    → 0 < length s
    → length s < 2147483648
    → Brings s ts
    → Gets s m p (recv_patiently ts m p (length s))
unfolding recv_patiently recv
recv_patiently-Gets [] m p s positive small h = absurd h
recv_patiently-Gets (t ∷ rest) m p s positive small (inl (late, later)) =
    let asked : (length s == 0) ≡ false = ground arith in
    rw (asked, late, recv_patiently, recv) (recv_patiently-Gets rest m p s positive small later)
recv_patiently-Gets (t ∷ rest) m p s positive small (inr (ready, cut)) =
    let asked : (length s == 0) ≡ false = ground arith in
    let (m', got, put) = recv_loop-Gets t.answers 0 m p s small cut in
    rw (asked, ready, got, recv_patiently, recv) (m', refl, put)

length-read : (m : Mem) (p n : ℕ) → length (read m p n) ≡ n
unfolding read
length-read m p zero = refl
length-read m p (suc n) = ap suc (length-read m (p + 1) n)

get_or-read : (m : Mem) (p n i : ℕ) → i < n → get_or (read m p n) i 0 ≡ m (p + i)
unfolding read
get_or-read m p zero i h = absurd (omega arith)
get_or-read m p (suc n) zero h = ap m (omega arith)
get_or-read m p (suc n) (suc i) h = get_or-read m (p + 1) n i (omega arith) ∙ ap m (omega arith)

-- The bytes of `m0` at `p` are copied to `r`, where the memory was `m`.
abbrev Copies : Mem → ℕ → ℕ → Mem → ℕ → Mem → Type 0
Copies m0 p n m r m' =
    ((k : ℕ) → k < n → m' (r + k) ≡ m0 (p + k)) × ((x : ℕ) → (x < r) ⊎ (r + n ≤ x) → m' x ≡ m x)

recv_patiently-Copies :
    (ts : List Receipt) (m0 : Mem) (p n : ℕ) (m : Mem) (r : ℕ)
    → 0 < n
    → n < 2147483648
    → Brings (read m0 p n) ts
    → (m' : Mem) × (recv_patiently ts m r n ≡ some (ok, m')) × Copies m0 p n m r m'
recv_patiently-Copies ts m0 p n m r positive small h =
    let e = length-read m0 p n in
    let (m', got, put) =
      recv_patiently-Gets ts m r (read m0 p n) (omega (arith, e)) (omega (arith, e)) h in
    (
      m',
      ap (recv_patiently ts m r) (sym e) ∙ got,
      (
        (λ k l. put.holds k (omega (arith, e)) ∙ get_or-read m0 p n k l),
        λ x o. put.frame x (omega (arith, e)),
      ),
    )

-- The message of `n` bytes at `p` in the memory `m0` arrives: its length, and then the rest.
abbrev pub Arrives : Mem → ℕ → ℕ → Answers → Type 0
Arrives m0 p n a =
    (a.still_connected ≡ true)
    × Brings (read m0 p 4) a.lengths
    × Brings (read m0 (p + 4) (n - 4)) a.bodies

-- The reply is the message, in the buffer at `r`.
abbrev pub Delivers : Mem → ℕ → ℕ → Mem → ℕ → Option Reply → Type 0
Delivers m0 p n m r reply =
    (m' : Mem) × (reply ≡ some (0, none, m'))
    × ((k : ℕ) → k < n → m' (r + k) ≡ m0 (p + k))
    × ((x : ℕ) → (x < r) ⊎ (r + recv_buf_size ≤ x) → m' x ≡ m x)

fill_frame : (m : Mem) (a c n x : ℕ) → (x < a) ⊎ (a + n ≤ x) → fill m a c n x ≡ m x
unfolding fill
fill_frame m a c n x h = ground arith

module _ (m0 : Mem) (p n : ℕ) (header : load32 m0 p ≡ n) (long : 4 < n) (fits : n ≤ recv_buf_size)
    (a : Answers) (arrives : Arrives m0 p n a) (m : Mem) (r : ℕ) where
  recv_body-Delivers :
      (m1 : Mem)
      → Copies m0 p 4 (fill m r 0 recv_buf_size) r m1
      → Delivers m0 p n m r (use_length a.bodies m1 r)
  unfolding use_length recv_body rc_word
  recv_body-Delivers m1 (four, frame) =
      let count : load32 m1 r ≡ n =
        load32_shift m0 m1 p r 4 0 r p four (omega arith) (omega arith) (omega arith) ∙ header in
      let few : lt_int recv_buf_size n ≡ false = ground arith in
      let left : sub32 n 4 ≡ n - 4 = omega arith in
      let (m', got, (rest, behind)) =
        recv_patiently-Copies a.bodies m0 (p + 4) (n - 4) m1 (r + 4) (omega arith) (omega arith)
          (arrives.2) in
      let all : (k : ℕ) → k < n → m' (r + k) ≡ m0 (p + k) = λ k l. elim (below_or_past k) [
        | inl b ↦ behind (r + k) (omega arith) ∙ four k b
        | inr b ↦
            let there : r + k ≡ r + 4 + (k - 4) = omega arith in
            ap m' there ∙ rest (k - 4) (omega arith) ∙ ap m0 (omega arith)
      ] in
      rw (count, few, left, got, use_length, recv_body)
        (
          m',
          refl,
          all,
          λ x o.
              behind x (omega arith) ∙ frame x (omega arith) ∙ fill_frame m r 0 recv_buf_size x o,
        )
    where
      below_or_past : (k : ℕ) → (k < 4) ⊎ (4 ≤ k)
      below_or_past k = omega arith

  -- A message of 5 to 4096 bytes that begins with its length, and whose first four bytes and whose
  -- other bytes arrive, each cut into any parts and after any number of timeouts, while the socket is
  -- connected: recvReply returns EDB_OK with the message in the receive buffer, and changes nothing
  -- outside of the buffer.
  pub recv_reply-Delivers : Delivers m0 p n m r (recv_reply a m r)
  unfolding recv_reply
  recv_reply-Delivers =
      let clean = fill m r 0 recv_buf_size in
      let (m1, got, four) =
        recv_patiently-Copies a.lengths m0 p 4 clean r (omega arith) (omega arith) (arrives.1) in
      rw (arrives.0, got, recv_reply) (recv_body-Delivers m1 four)
