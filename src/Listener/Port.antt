-- ===== src/Listener/Port.antt =====
-- The port that pmdTcpListenerEntryPoint of pmd/pmdTcpListener.cpp reads from the service name.
use emeralddb_src.Base.{
  ℕ, zero, suc, ◌+◌, ◌*◌, ◌/◌, ◌%◌, ◌<◌, ◌≡◌, refl, ap, ◌∙◌, List, [], ◌∷◌, ◌++◌, arith, Bool-cases,
  inl, inr, ◌==◌, if◌then◌else◌,
}
use emeralddb_src.Listener.{port_from, port_of}

port_from-append :
    (s t : List ℕ) (port : ℕ) → port_from port (s ++ t) ≡ port_from (port_from port s) t
unfolding port_from
port_from-append [] t port = refl
port_from-append (c ∷ s) t port = port_from-append s t _

-- The decimal digits of a number below `fuel`
abbrev pub digits : ℕ → ℕ → List ℕ
digits zero n = []
digits (suc fuel) n = (if n / 10 == 0 then [] else digits fuel (n / 10)) ++ (b'0' + n % 10) ∷ []

digit_lem : (port d : ℕ) → d < 10 → port_from port ((b'0' + d) ∷ []) ≡ (port * 10 + d) % 4294967296
unfolding port_from
digit_lem port d h = ground arith

port_of-digits_lem : (fuel n : ℕ) → n < fuel → n < 2147483648 → port_of (digits fuel n) ≡ n
unfolding port_of port_from
port_of-digits_lem zero n h k = absurd (omega arith)
port_of-digits_lem (suc fuel) n h k =
    let front = if n / 10 == 0 then [] else digits fuel (n / 10) in
    let tens : port_from 0 front ≡ n / 10 = elim (Bool-cases (n / 10 == 0)) [
      | inl e ↦ rw e (ground arith)
      | inr e ↦ rw e (port_of-digits_lem fuel (n / 10) (ground arith) (omega arith))
    ] in
    port_from-append front ((b'0' + n % 10) ∷ []) 0
    ∙ digit_lem (port_from 0 front) (n % 10) (omega arith)
    ∙ ap (λ p. (p * 10 + n % 10) % 4294967296) tens
    ∙ omega arith

-- The port that is read from the decimal digits of a number below 2 ^ 31 is that number.
pub port_of-digits : (n : ℕ) → n < 2147483648 → port_of (digits (n + 1) n) ≡ n
port_of-digits n h = port_of-digits_lem (n + 1) n (omega arith) h
