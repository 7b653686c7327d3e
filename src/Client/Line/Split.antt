-- ===== src/Client/Line/Split.antt =====
-- `split` of client/edb.cpp on the words of a line.
use emeralddb_src.Base.{
  ℕ, zero, suc, ◌+◌, ◌-◌, ◌≤◌, ◌<◌, ◌≡◌, refl, ap, subst, ◌∙◌, ◌≢◌, List, [], ◌∷◌, ◌++◌, arith,
  length, length-append, get_or, ltb, true, false,
}
use mathlib.Core.List.{append-nil}
use emeralddb_src.Client.Line.{substr, word_end, split_from, split}

-- The words one behind the other with `delim` between them
abbrev pub join : ℕ → List (List ℕ) → List ℕ
join delim [] = []
join delim (w ∷ []) = w
join delim (w ∷ v ∷ ws) = w ++ delim ∷ join delim (v ∷ ws)

-- `delim` does not occur in the word.
abbrev pub Lacks : ℕ → List ℕ → Type 0
Lacks delim [] = Unit {0}
Lacks delim (c ∷ w) = (c ≢ delim) × Lacks delim w

-- No word holds `delim`, and the last one is not empty.
abbrev pub AreWords : ℕ → List (List ℕ) → Type 0
AreWords delim [] = Unit {0}
AreWords delim (w ∷ []) = Lacks delim w × (w ≢ [])
AreWords delim (w ∷ v ∷ ws) = Lacks delim w × AreWords delim (v ∷ ws)

-- What of the text stands behind `pos` is `s`.
record Rest (text : List ℕ) (pos : ℕ) (s : List ℕ) : Type 0 where
  ends : length text ≡ pos + length s
  reads : (i : ℕ) → i < length s → get_or text (pos + i) 0 ≡ get_or s i 0

Rest-head : (text : List ℕ) (pos c : ℕ) (s : List ℕ) → Rest text pos (c ∷ s) → get_or text pos 0 ≡ c
Rest-head text pos c s r = ap (λ i. get_or text i 0) (omega arith) ∙ r.reads 0 (omega arith)

Rest-tail : (text : List ℕ) (pos c : ℕ) (s : List ℕ) → Rest text pos (c ∷ s) → Rest text (pos + 1) s
Rest-tail text pos c s r = record {
  ends = omega (arith, r.ends);
  reads = λ i h. ap (λ i. get_or text i 0) (omega arith) ∙ r.reads (suc i) (omega arith);
}

Rest-append :
    (text : List ℕ) (pos : ℕ) (w s : List ℕ) → Rest text pos (w ++ s) → Rest text (pos + length w) s
Rest-append text pos [] s r = subst (λ p. Rest text p s) (omega arith) r
Rest-append text pos (c ∷ w) s r =
    let e : pos + 1 + length w ≡ pos + length (c ∷ w) = omega arith in
    subst (λ p. Rest text p s) e (Rest-append text (pos + 1) w s (Rest-tail text pos c (w ++ s) r))

substr_lem :
    (text : List ℕ) (pos : ℕ) (w s : List ℕ)
    → Rest text pos (w ++ s)
    → substr text pos (length w) ≡ w
unfolding substr
substr_lem text pos [] s r = refl
substr_lem text pos (c ∷ w) s r =
    rw (Rest-head text pos c (w ++ s) r)
      (ap (◌∷◌ c) (substr_lem text (pos + 1) w s (Rest-tail text pos c (w ++ s) r)))

-- The word ends where the text does, or at the next delimiter.
abbrev Ends : ℕ → List ℕ → Type 0
Ends delim [] = Unit {0}
Ends delim (c ∷ s) = c ≡ delim

word_end_lem :
    (text : List ℕ) (delim pos : ℕ) (w s : List ℕ)
    → Rest text pos (w ++ s)
    → Lacks delim w
    → Ends delim s
    → word_end text delim pos (length (w ++ s)) ≡ pos + length w
unfolding word_end
word_end_lem text delim pos [] [] r lacks e = omega arith
word_end_lem text delim pos [] (c ∷ s) r lacks e = ground (arith, Rest-head text pos c s r)
word_end_lem text delim pos (c ∷ w) s r lacks e = ground (
  arith,
  Rest-head text pos c (w ++ s) r,
  word_end_lem text delim (pos + 1) w s (Rest-tail text pos c (w ++ s) r) (lacks.1) e,
)

some_length : (s : List ℕ) → s ≢ [] → 0 < length s
some_length [] h = absurd (h refl)
some_length (c ∷ s) h = omega arith

split_from_past :
    (fuel : ℕ) (text : List ℕ) (delim first : ℕ)
    → length text ≤ first
    → split_from fuel text delim first ≡ []
unfolding split_from
split_from_past zero text delim first h = refl
split_from_past (suc fuel) text delim first h =
    let no_more : ltb first (length text) ≡ false = ground arith in rw no_more refl

-- One round of the outer loop takes a word.
round_lem :
    (fuel : ℕ) (text : List ℕ) (delim first : ℕ) (w s : List ℕ)
    → Rest text first (w ++ s)
    → Lacks delim w
    → Ends delim s
    → w ++ s ≢ []
    → split_from (suc fuel) text delim first ≡ w ∷ split_from fuel text delim (first + length w + 1)
unfolding split_from
round_lem fuel text delim first w s r lacks e some_left =
    let rest : length text - first ≡ length (w ++ s) = omega (arith, r.ends) in
    let more : ltb first (length text) ≡ true =
      ground (arith, r.ends, some_length (w ++ s) some_left) in
    let stops = word_end_lem text delim first w s r lacks e in
    let long : first + length w - first ≡ length w = omega arith in
    rw (more, rest, stops, long, substr_lem text first w s r) refl

split_from-join :
    (ws : List (List ℕ)) (fuel : ℕ) (text : List ℕ) (delim first : ℕ)
    → Rest text first (join delim ws)
    → AreWords delim ws
    → length (join delim ws) ≤ fuel
    → split_from fuel text delim first ≡ ws
unfolding split_from
split_from-join [] fuel text delim first r words h =
    split_from_past fuel text delim first (omega (arith, r.ends))
split_from-join (w ∷ []) zero text delim first r words h =
    absurd (omega (arith, h, some_length w (words.1)))
split_from-join (w ∷ []) (suc fuel) text delim first r words h =
    let whole : Rest text first (w ++ []) = rw append-nil r in
    let some_left : w ++ [] ≢ [] = rw append-nil (words.1) in
    round_lem fuel text delim first w [] whole (words.0) tt some_left
    ∙ ap (◌∷◌ w) (split_from_past fuel text delim (first + length w + 1) (omega (arith, r.ends)))
split_from-join (w ∷ v ∷ ws) zero text delim first r words h =
    absurd (omega (arith, length-append w (delim ∷ join delim (v ∷ ws)), h))
split_from-join (w ∷ v ∷ ws) (suc fuel) text delim first r words h =
    let later = delim ∷ join delim (v ∷ ws) in
    let total = length-append w later in
    let some_left : w ++ later ≢ [] = λ e. absurd (omega (arith, total, ap length e)) in
    round_lem fuel text delim first w later r (words.0) refl some_left
    ∙ ap (◌∷◌ w) (
        split_from-join (v ∷ ws) fuel text delim (first + length w + 1)
          (Rest-tail text (first + length w) delim (join delim (v ∷ ws))
            (Rest-append text first w later r))
          (words.1) (omega (arith, total, h)))

-- Words without the delimiter, the last one not empty, that are joined by the delimiter are those
-- into which split divides the line.
pub split-join :
    (delim : ℕ) (ws : List (List ℕ)) → AreWords delim ws → split (join delim ws) delim ≡ ws
unfolding split
split-join delim ws words =
    split_from-join ws (length (join delim ws)) (join delim ws) delim 0
      (record {
        ends = omega arith;
        reads = λ i h. ap (λ i. get_or (join delim ws) i 0) (omega arith);
      })
      words (omega arith)
