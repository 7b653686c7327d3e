-- ===== src/Socket/Transfer.antt =====
-- pmd/pmdEDU.cpp: pmdRecv and pmdSend, over `recv` and `send` of oss/ossSocket.cpp.
use emeralddb_src.Base.{
  ℕ, ◌<◌, ◌≡◌, refl, ◌⊎◌, inl, inr, true, false, List, [], ◌∷◌, Option, none, some, arith, if_cases,
  ◌==◌, ap,
}
use emeralddb_src.Core.{Rc, ok, network, timeout, app_forced}
use emeralddb_src.Memory.{Mem}
use emeralddb_src.Socket.{
  Select, time_over, interrupts, fails, is_set, not_set, Received, Taken, Attempt, await, recv,
  send, pmd_recv, pmd_send, is_timeout, recv_loop, send_loop, read,
}
use emeralddb_src.Socket.Recv.{stream, IsReceived, recv_loop-IsReceived}
use emeralddb_src.Socket.Send.{IsSent, send_loop-IsSent}

-- Select says at last whether the socket is ready.
abbrev pub Decides : List Select → Type 0
Decides [] = ⊥
Decides (interrupts ∷ rest) = Decides rest
Decides (not_set ∷ rest) = Decides rest
Decides (_ ∷ rest) = Unit {0}

-- `P` holds of each, or of one, in the list.
abbrev pub All : {A : Type 0} → (A → Type 0) → List A → Type 0
All P [] = Unit {0}
All P (x ∷ xs) = P x × All P xs

abbrev pub Some : {A : Type 0} → (A → Type 0) → List A → Type 0
Some P [] = ⊥
Some P (x ∷ xs) = P x ⊎ Some P xs

await-cases :
    (selects : List Select)
    → Decides selects
    → (await selects ≡ some timeout) ⊎ (await selects ≡ some network) ⊎ (await selects ≡ some ok)
unfolding await
await-cases [] h = absurd h
await-cases (time_over ∷ rest) h = inl refl
await-cases (interrupts ∷ rest) h = await-cases rest h
await-cases (fails ∷ rest) h = inr (inl refl)
await-cases (is_set ∷ rest) h = inr (inr refl)
await-cases (not_set ∷ rest) h = await-cases rest h

-- The thread was not forced, and the call of the socket timed out.
abbrev pub TimesOut : {A : Type 0} → Attempt A → Type 0
TimesOut t = (t.is_forced ≡ false) × (await t.selects ≡ some timeout)

-- What a transfer comes to over the attempts to come: all of them time out; or the thread is forced and nothing is
-- transferred; or `P` holds of one attempt and of what is returned.
abbrev pub Transfers :
    {A B : Type 0}
    → List (Attempt A)
    → B
    → (Attempt A → Option (Rc × B) → Type 0)
    → Option (Rc × B)
    → Type 0
Transfers ts nothing P none = All TimesOut ts
Transfers ts nothing P (some (rc, out)) =
    (rc ≡ app_forced) × (out ≡ nothing) ⊎ Some (λ t. P t (some (rc, out))) ts

Transfers-skip :
    {A B : Type 0} (t : Attempt A) (ts : List (Attempt A)) (nothing : B)
    (P : Attempt A → Option (Rc × B) → Type 0) (r : Option (Rc × B))
    → TimesOut t
    → Transfers ts nothing P r
    → Transfers (t ∷ ts) nothing P r
Transfers-skip t ts nothing P none out h = (out, h)
Transfers-skip t ts nothing P (some (rc, x)) out (inl forced) = inl forced
Transfers-skip t ts nothing P (some (rc, x)) out (inr one) = inr (inr one)

-- What is returned, and it is no timeout.
abbrev Final : {B : Type 0} → Option (Rc × B) → Type 0
Final none = ⊥
Final (some (rc, out)) = is_timeout rc ≡ false

next-Transfers :
    {A B : Type 0} (t : Attempt A) (ts : List (Attempt A)) (nothing : B)
    (P : Attempt A → Option (Rc × B) → Type 0) (r : Option (Rc × B)) (later : B → Option (Rc × B))
    → t.is_forced ≡ false
    → (await t.selects ≡ some timeout) × (r ≡ some (timeout, nothing)) ⊎ P t r × Final r
    → Transfers ts nothing P (later nothing)
    → Transfers (t ∷ ts) nothing P (elim r as (λ _. Option (Rc × B)) [
      | none ↦ none
      | some (rc, out) ↦ elim (is_timeout rc) [ true ↦ later out | false ↦ some (rc, out) ]
    ])
next-Transfers t ts nothing P r later f (inl (out, e)) rest =
    rw e (Transfers-skip t ts nothing P (later nothing) (f, out) rest)
next-Transfers t ts nothing P none later f (inr (h, e)) rest = elim e [ ]
next-Transfers t ts nothing P (some (rc, out)) later f (inr (h, e)) rest = rw e (inr (inl h))

received-Final :
    (s : List ℕ) (m : Mem) (p len : ℕ) (r : Option (Rc × Mem)) → IsReceived s m p len r → Final r
received-Final s m p len none h = h
received-Final s m p len (some (rc, m')) (frame, inl (e, enough, holds)) = ap is_timeout e
received-Final s m p len (some (rc, m')) (frame, inr (inl e)) = ap is_timeout e
received-Final s m p len (some (rc, m')) (frame, inr (inr e)) = ap is_timeout e

sent-Final : (m : Mem) (p len : ℕ) (r : Option (Rc × List ℕ)) → IsSent m p len r → Final r
sent-Final m p len none h = h
sent-Final m p len (some (rc, out)) (inl (e, all)) = ap is_timeout e
sent-Final m p len (some (rc, out)) (inr (e, first)) = ap is_timeout e

module _ (m : Mem) (p len : ℕ) (positive : 0 < len) (small : len < 2147483648) where
  -- The system's answers to an attempt suffice for the call.
  abbrev pub Receives : Attempt Received → Type 0
  Receives t = Decides t.selects × emeralddb_src.Socket.Recv.Suffices t.answers 0 len

  abbrev pub Sends : Attempt Taken → Type 0
  Sends t = Decides t.selects × emeralddb_src.Socket.Send.Suffices t.answers len

  pub recv-cases :
      (selects : List Select) (answers : List Received)
      → Decides selects
      → emeralddb_src.Socket.Recv.Suffices answers 0 len
      → (await selects ≡ some timeout) × (recv selects answers m p len ≡ some (timeout, m))
        ⊎ IsReceived (stream answers) m p len (recv selects answers m p len)
  unfolding recv
  recv-cases selects answers d s =
      let some_bytes : (len == 0) ≡ false = ground arith in
      elim (await-cases selects d) [
        | inl e ↦ inl (e, rw (some_bytes, e, recv) refl)
        | inr (inl e) ↦ inr (rw (some_bytes, e, recv) (λ x h. refl, inr (inl refl)))
        | inr (inr e) ↦
            inr (rw (some_bytes, e, recv) (recv_loop-IsReceived answers 0 m p len small s))
      ]

  pub send-cases :
      (selects : List Select) (answers : List Taken)
      → Decides selects
      → emeralddb_src.Socket.Send.Suffices answers len
      → (await selects ≡ some timeout) × (send selects answers m p len ≡ some (timeout, []))
        ⊎ IsSent m p len (send selects answers m p len)
  unfolding send read
  send-cases selects answers d s =
      let some_bytes : (len == 0) ≡ false = ground arith in
      elim (await-cases selects d) [
        | inl e ↦ inl (e, rw (some_bytes, e, send) refl)
        | inr (inl e) ↦ inr (rw (some_bytes, e, send) (inr (refl, (0, omega arith, refl))))
        | inr (inr e) ↦ inr (rw (some_bytes, e, send) (send_loop-IsSent answers m p len small s))
      ]

  -- pmdRecv of one or more bytes, fewer than 2 ^ 31, where the answers of the system suffice for
  -- each attempt, goes on only while each attempt times out; it returns EDB_APP_FORCED with the
  -- memory as it was, or, after one attempt, EDB_OK with the first bytes of that attempt's stream,
  -- however they were cut, or a network error; nothing outside of the bytes asked for changes.
  pub pmd_recv-Transfers :
      (ts : List (Attempt Received))
      → All Receives ts
      → Transfers ts m (λ t. IsReceived (stream t.answers) m p len) (pmd_recv ts m p len)
  unfolding pmd_recv
  pmd_recv-Transfers [] h = tt
  pmd_recv-Transfers (t ∷ ts) (h, rest) =
      let P = λ (t : Attempt Received). IsReceived (stream t.answers) m p len in
      if_cases (Transfers (t ∷ ts) m P) t.is_forced _ _ (λ f. inl (refl, refl))
        λ f.
          next-Transfers t ts m P (recv t.selects t.answers m p len) (λ m'. pmd_recv ts m' p len) f
            (elim (recv-cases t.selects t.answers h.0 h.1) [
              | inl e ↦ inl e
              | inr e ↦ inr (e, received-Final (stream t.answers) m p len _ e)
            ])
            (pmd_recv-Transfers ts rest)

  -- pmdSend of one or more bytes, fewer than 2 ^ 31, where the answers of the system suffice for
  -- each attempt, goes on only while each attempt times out; it returns EDB_APP_FORCED with nothing
  -- sent, or, after one attempt, EDB_OK with all of the bytes sent in order, or EDB_NETWORK with
  -- the first of them sent.
  pub pmd_send-Transfers :
      (ts : List (Attempt Taken))
      → All Sends ts
      → Transfers ts [] (λ t. IsSent m p len) (pmd_send ts m p len)
  unfolding pmd_send
  pmd_send-Transfers [] h = tt
  pmd_send-Transfers (t ∷ ts) (h, rest) =
      let P = λ (t : Attempt Taken). IsSent m p len in
      if_cases (Transfers (t ∷ ts) [] P) t.is_forced _ _ (λ f. inl (refl, refl))
        λ f.
          next-Transfers t ts [] P (send t.selects t.answers m p len) (λ out. pmd_send ts m p len) f
            (elim (send-cases t.selects t.answers h.0 h.1) [
              | inl e ↦ inl e
              | inr e ↦ inr (e, sent-Final m p len _ e)
            ])
            (pmd_send-Transfers ts rest)
