-- ===== src/Socket/Send.antt =====
-- The loop of `send` of oss/ossSocket.cpp.
use emeralddb_src.Base.{
  ℕ, zero, suc, ◌+◌, ◌-◌, ◌≤◌, ◌<◌, ◌≡◌, refl, ap, ◌∙◌, ◌⊎◌, inl, inr, List, [], ◌∷◌, ◌++◌, Option,
  none, some, arith, if_cases, not, true,
}
use emeralddb_src.Core.{Rc, ok, network}
use emeralddb_src.Memory.{Mem, lt_int, sub32}
use emeralddb_src.Socket.{Taken, takes, refused, read, send_loop}

-- Each call takes a byte at least and no more than it is given, and the answers go on until all is sent or a
-- call fails.
abbrev pub Suffices : List Taken → ℕ → Type 0
Suffices [] len = len ≡ 0
Suffices (takes n ∷ rest) len = (len ≡ 0) ⊎ (1 ≤ n) × (n ≤ len) × Suffices rest (len - n)
Suffices (refused ∷ rest) len = Unit {0}

-- The result of a send of the `len` bytes at `p`: all of them went out, or an error is returned and the first
-- of them did.
abbrev pub IsSent : Mem → ℕ → ℕ → Option (Rc × List ℕ) → Type 0
IsSent m p len none = ⊥
IsSent m p len (some (rc, out)) =
    (rc ≡ ok) × (out ≡ read m p len) ⊎ (rc ≡ network) × ((n : ℕ) × (n ≤ len) × (out ≡ read m p n))

pub read-append : (m : Mem) (p n k : ℕ) → read m p n ++ read m (p + n) k ≡ read m p (n + k)
unfolding read
read-append m p zero k =
    let e : p + 0 ≡ p = omega arith in let f : 0 + k ≡ k = omega arith in rw (e, f) refl
read-append m p (suc n) k =
    let e : p + suc n ≡ p + 1 + n = omega arith in
    let f : suc n + k ≡ suc (n + k) = omega arith in
    rw (e, f) (ap (λ s. m p ∷ s) (read-append m (p + 1) n k))

module _ (m : Mem) (p len : ℕ) (small : len < 2147483648) where
  pub nothing_left : not (lt_int 0 len) ≡ true → IsSent m p len (some (ok, []))
  unfolding read
  nothing_left e = let z : len ≡ 0 = ground arith in rw z (inl (refl, refl))

  IsSent-append :
      (n : ℕ)
      → n ≤ len
      → (r : Option (Rc × List ℕ)) → IsSent m (p + n) (len - n) r
      → IsSent m p len (elim r [ none ↦ none | some (rc, out) ↦ some (rc, read m p n ++ out) ])
  IsSent-append n h none e = e
  IsSent-append n h (some (rc, out)) (inl (o, all)) =
      let total : n + (len - n) ≡ len = omega arith in
      inl (o, ap (λ s. read m p n ++ s) all ∙ read-append m p n (len - n) ∙ ap (read m p) total)
  IsSent-append n h (some (rc, out)) (inr (f, (k, fit, first))) =
      inr (f, (n + k, omega arith, ap (λ s. read m p n ++ s) first ∙ read-append m p n k))

-- If the answers suffice, `send` returns: with EDB_OK after the `len` bytes at `p` went out in order, however
-- they were cut, or with EDB_NETWORK after the first of them did.
pub send_loop-IsSent :
    (answers : List Taken) (m : Mem) (p len : ℕ)
    → len < 2147483648
    → Suffices answers len
    → IsSent m p len (send_loop answers m p len)
unfolding send_loop read
send_loop-IsSent [] m p len small e =
    if_cases (IsSent m p len) (not (lt_int 0 len)) _ _ (nothing_left m p len small)
      λ left. absurd (ground arith)
send_loop-IsSent (takes n ∷ rest) m p len small e =
    if_cases (IsSent m p len) (not (lt_int 0 len)) _ _ (nothing_left m p len small) λ left. elim e [
      | inl z ↦ absurd (ground arith)
      | inr (some_bytes, fit, more) ↦
          let d : sub32 len n ≡ len - n = omega arith in
          rw d (
            IsSent-append m p len small n fit _
              (send_loop-IsSent rest m (p + n) (len - n) (omega arith) more))
    ]
send_loop-IsSent (refused ∷ rest) m p len small e =
    if_cases (IsSent m p len) (not (lt_int 0 len)) _ _ (nothing_left m p len small)
      λ left. inr (refl, (0, omega arith, refl))
