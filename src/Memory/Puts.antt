-- ===== src/Memory/Puts.antt =====
-- What it takes to put bytes into the memory one after the other, and to find them there.
use emeralddb_src.Base.{
  ℕ, zero, suc, ◌+◌, ◌≤◌, ◌<◌, ◌≡◌, ap, ◌∙◌, ◌⊎◌, List, [], ◌∷◌, ◌++◌, arith, length, length-append,
}
use emeralddb_src.Memory.{Mem, Holds, copy, copy_frame, copy-Holds}

module _ (m : Mem) (p c : ℕ) (s : List ℕ) (h : Holds m p (c ∷ s)) where
  pub Holds-head : m p ≡ c
  Holds-head = ap m (omega arith) ∙ h 0 (omega arith)

  pub Holds-tail : Holds m (p + 1) s
  Holds-tail i k = ap m (omega arith) ∙ h (suc i) (omega arith)

pub Holds-cons : (m : Mem) (p c : ℕ) (s : List ℕ) → m p ≡ c → Holds m (p + 1) s → Holds m p (c ∷ s)
Holds-cons m p c s e h zero k = ap m (omega arith) ∙ e
Holds-cons m p c s e h (suc i) k = ap m (omega arith) ∙ h i (omega arith)

pub Holds-append :
    (m : Mem) (p : ℕ) (s t : List ℕ) → Holds m p s → Holds m (p + length s) t → Holds m p (s ++ t)
Holds-append m p [] t a b i k = ap m (omega arith) ∙ b i k
Holds-append m p (c ∷ s) t a b i k =
    Holds-cons m p c (s ++ t) (Holds-head m p c s a)
      (Holds-append m (p + 1) s t (Holds-tail m p c s a) (λ i k. ap m (omega arith) ∙ b i k)) i k

-- The memory `m'` differs from `m` only in holding `s` at `p`.
pub record Puts (m m' : Mem) (p : ℕ) (s : List ℕ) : Type 0 where
  pub frame : (x : ℕ) → (x < p) ⊎ (p + length s ≤ x) → m' x ≡ m x
  pub holds : Holds m' p s

pub Puts-cons :
    (m m1 m' : Mem) (p c : ℕ) (s : List ℕ)
    → m1 p ≡ c
    → ((x : ℕ) → (x < p) ⊎ (p + 1 ≤ x) → m1 x ≡ m x)
    → Puts m1 m' (p + 1) s
    → Puts m m' p (c ∷ s)
Puts-cons m m1 m' p c s e f q = record {
  frame = λ x o. q.frame x (omega arith) ∙ f x (omega arith);
  holds = Holds-cons m' p c s (q.frame p (omega arith) ∙ e) q.holds;
}

pub copy-Holds-head : (m : Mem) (p c : ℕ) → copy m p (c ∷ []) p ≡ c
copy-Holds-head m p c = Holds-head (copy m p (c ∷ [])) p c [] (copy-Holds m p (c ∷ []))

pub Puts-append :
    (m m1 m' : Mem) (p : ℕ) (s t : List ℕ)
    → Puts m m1 p s
    → Puts m1 m' (p + length s) t
    → Puts m m' p (s ++ t)
Puts-append m m1 m' p s t a b = record {
  frame = λ x o.
      b.frame x (omega (arith, length-append s t)) ∙ a.frame x (omega (arith, length-append s t));
  holds = Holds-append m' p s t (λ i k. b.frame (p + i) (omega arith) ∙ a.holds i k) b.holds;
}

pub copy-Puts : (m : Mem) (p : ℕ) (s : List ℕ) → Puts m (copy m p s) p s
copy-Puts m p s = record { frame = copy_frame m p s; holds = copy-Holds m p s }
