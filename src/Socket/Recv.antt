-- ===== src/Socket/Recv.antt =====
-- The loop of `recv` of oss/ossSocket.cpp.
use emeralddb_src.Base.{
  ℕ, ◌+◌, ◌-◌, ◌≤◌, ◌<◌, ◌≡◌, refl, sym, ap, ◌∙◌, ◌⊎◌, inl, inr, List, [], ◌∷◌, ◌++◌, Option, none,
  some, arith, length, length-append, get_or, get_or-append, get_or-append_past, if_cases, not, ltb,
  true,
}
use emeralddb_src.Core.{Rc, ok, network, network_close}
use emeralddb_src.Memory.{Mem, copy, copy_frame, copy-Holds, lt_int, sub32}
use emeralddb_src.Socket.{Received, bytes, closed, interrupted, failed, recv_loop, max_recv_retries}

-- The bytes that arrive, one answer's after the other's.
abbrev pub stream : List Received → List ℕ
stream [] = []
stream (bytes s ∷ rest) = s ++ stream rest
stream (_ ∷ rest) = stream rest

-- Each call returns a byte at least and no more than it is asked for, and the answers go on until all is
-- received, a call fails, or the retries are used up.
abbrev pub Suffices : List Received → ℕ → ℕ → Type 0
Suffices [] retries len = len ≡ 0
Suffices (bytes s ∷ rest) retries len =
    (len ≡ 0) ⊎ (1 ≤ length s) × (length s ≤ len) × Suffices rest retries (len - length s)
Suffices (closed ∷ rest) retries len = Unit {0}
Suffices (interrupted ∷ rest) retries len =
    (len ≡ 0) ⊎ (max_recv_retries ≤ retries) ⊎ Suffices rest (retries + 1) len
Suffices (failed ∷ rest) retries len = Unit {0}

-- The result of a recv of `len` bytes to `p`: the first bytes of the stream stand there, or an error is
-- returned, and nothing else has changed.
abbrev pub IsReceived : List ℕ → Mem → ℕ → ℕ → Option (Rc × Mem) → Type 0
IsReceived s m p len none = ⊥
IsReceived s m p len (some (rc, m')) =
    ((x : ℕ) → (x < p) ⊎ (p + len ≤ x) → m' x ≡ m x)
    × ((rc ≡ ok) × (len ≤ length s) × ((i : ℕ) → i < len → m' (p + i) ≡ get_or s i 0)
        ⊎ (rc ≡ network)
        ⊎ (rc ≡ network_close))

module _ (s : List ℕ) (later : List ℕ) (m : Mem) (p len : ℕ) (h : length s ≤ len) where
  IsReceived-append :
      (r : Option (Rc × Mem))
      → IsReceived later (copy m p s) (p + length s) (len - length s) r
      → IsReceived (s ++ later) m p len r
  IsReceived-append none e = e
  IsReceived-append (some (rc, m')) (frame, e) = (
    behind,
    elim e [
      | inl (o, enough, holds) ↦ inl (o, omega (arith, length-append s later), all holds)
      | inr failing ↦ inr failing
    ],
  )
    where
      behind : (x : ℕ) → (x < p) ⊎ (p + len ≤ x) → m' x ≡ m x
      behind x o = frame x (omega arith) ∙ copy_frame m p s x (omega arith)

      le_or : (i : ℕ) → (i < length s) ⊎ (length s ≤ i)
      le_or i = omega arith

      all :
          ((i : ℕ) → i < len - length s → m' (p + length s + i) ≡ get_or later i 0)
          → (i : ℕ) → i < len
          → m' (p + i) ≡ get_or (s ++ later) i 0
      all holds i k = elim (le_or i) [
        | inl a ↦
            frame (p + i) (omega arith) ∙ copy-Holds m p s i a ∙ sym (get_or-append s later i 0 a)
        | inr b ↦
            let j = i - length s in
            let e : i ≡ length s + j = omega arith in
            let there : p + i ≡ p + length s + j = omega arith in
            ap m' there
            ∙ holds j (omega arith)
            ∙ sym (get_or-append_past s later j 0)
            ∙ ap (λ i. get_or (s ++ later) i 0) (sym e)
      ]

module _ (s : List ℕ) (m : Mem) (p len : ℕ) (small : len < 2147483648) where
  pub nothing_left : not (lt_int 0 len) ≡ true → IsReceived s m p len (some (ok, m))
  nothing_left e =
      let z : len ≡ 0 = ground arith in
      (λ x h. refl, inl (refl, omega arith, λ i k. absurd (omega arith)))

-- If the answers suffice, `recv` returns: with EDB_OK and the first `len` bytes of the stream at `p`, however
-- they were cut, or with EDB_NETWORK or EDB_NETWORK_CLOSE; nothing outside of the `len` bytes changes.
pub recv_loop-IsReceived :
    (answers : List Received) (retries : ℕ) (m : Mem) (p len : ℕ)
    → len < 2147483648
    → Suffices answers retries len
    → IsReceived (stream answers) m p len (recv_loop answers retries m p len)
unfolding recv_loop
recv_loop-IsReceived [] retries m p len small e =
    if_cases (IsReceived [] m p len) (not (lt_int 0 len)) _ _ (nothing_left [] m p len small)
      λ left. absurd (ground arith)
recv_loop-IsReceived (bytes s ∷ rest) retries m p len small e =
    if_cases (IsReceived (s ++ stream rest) m p len) (not (lt_int 0 len)) _ _
      (nothing_left (s ++ stream rest) m p len small)
      λ left. elim e [
        | inl z ↦ absurd (ground arith)
        | inr (some_bytes, fit, more) ↦
            let d : sub32 len (length s) ≡ len - length s = omega arith in
            rw d (
              IsReceived-append s (stream rest) m p len fit _ (
                recv_loop-IsReceived rest retries (copy m p s) (p + length s) (len - length s)
                  (omega arith) more))
      ]
recv_loop-IsReceived (closed ∷ rest) retries m p len small e =
    if_cases (IsReceived (stream rest) m p len) (not (lt_int 0 len)) _ _
      (nothing_left (stream rest) m p len small) λ left. (λ x h. refl, inr (inr refl))
recv_loop-IsReceived (interrupted ∷ rest) retries m p len small e =
    if_cases (IsReceived (stream rest) m p len) (not (lt_int 0 len)) _ _
      (nothing_left (stream rest) m p len small)
      λ left.
        if_cases (IsReceived (stream rest) m p len) (ltb retries max_recv_retries) _ _
          (λ again. elim e [
            | inl z ↦ absurd (ground arith)
            | inr (inl used) ↦ absurd (ground arith)
            | inr (inr more) ↦ recv_loop-IsReceived rest (retries + 1) m p len small more
          ])
          λ used. (λ x h. refl, inr (inl refl))
recv_loop-IsReceived (failed ∷ rest) retries m p len small e =
    if_cases (IsReceived (stream rest) m p len) (not (lt_int 0 len)) _ _
      (nothing_left (stream rest) m p len small) λ left. (λ x h. refl, inr (inl refl))
