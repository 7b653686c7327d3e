-- ===== src/Client/Line/Input.antt =====
-- `readInput` of client/edb.cpp on a line that fits into its buffer.
use emeralddb_src.Base.{
  ℕ, zero, suc, ◌+◌, ◌-◌, ◌≤◌, ◌<◌, ◌≡◌, refl, ap, sym, subst, ◌∙◌, ◌≢◌, ◌⊎◌, inl, inr, List, [],
  ◌∷◌, ◌++◌, map, Option, some, arith, length, get_or, ◌==◌, if◌then◌else◌, false, Bool-cases,
}
use emeralddb_src.Memory.{Mem, Holds, copy, copy_frame, fill}
use emeralddb_src.Memory.Puts.{Holds-head, Holds-tail, Puts, Puts-cons, copy-Holds-head}
use emeralddb_src.Socket.{read}
use emeralddb_src.Client.Line.Split.{Lacks}
use emeralddb_src.Client.Line.{
  back_slant, new_line, tab, space, cmd_buffer_size, strlen, read_chars, read_line, continue_lines,
  tabs_to_spaces, finish_input, read_input, buffer_text,
}

-- What `readLine` keeps of the characters of a line
abbrev pub kept : List ℕ → List ℕ
kept [] = []
kept (c ∷ line) = if c == back_slant then kept line else c ∷ kept line

-- No character of the line ends it, or the string that holds it.
abbrev pub IsLine : List ℕ → Type 0
IsLine [] = Unit {0}
IsLine (c ∷ line) = (c ≢ new_line) × (c ≢ 0) × IsLine line

abbrev pub no_tab : ℕ → ℕ
no_tab c = if c == tab then space else c

read-Holds : (m : Mem) (p : ℕ) (s : List ℕ) → Holds m p s → read m p (length s) ≡ s
unfolding read
read-Holds m p [] h = refl
read-Holds m p (c ∷ s) h =
    rw (Holds-head m p c s h) (ap (◌∷◌ c) (read-Holds m (p + 1) s (Holds-tail m p c s h)))

-- No character of a string is zero.
abbrev pub IsString : List ℕ → Type 0
IsString [] = Unit {0}
IsString (c ∷ s) = (c ≢ 0) × IsString s

kept-IsString : (line : List ℕ) → IsLine line → IsString (kept line)
kept-IsString [] h = tt
kept-IsString (c ∷ line) h = ground (arith, kept-IsString line (h.2))

map-IsString : (s : List ℕ) → IsString s → IsString (map no_tab s)
map-IsString [] h = tt
map-IsString (c ∷ s) h = (ground arith, map-IsString s (h.1))

pub length-map : (s : List ℕ) → length (map no_tab s) ≡ length s
length-map [] = refl
length-map (c ∷ s) = ap suc (length-map s)

strlen-Holds :
    (m : Mem) (p left : ℕ) (s : List ℕ)
    → Holds m p s
    → IsString s
    → m (p + length s) ≡ 0
    → length s < left
    → strlen m p left ≡ some (length s)
unfolding strlen
strlen-Holds m p zero s h k z l = absurd (omega arith)
strlen-Holds m p (suc left) [] h k z l = let e : m p ≡ 0 = ap m (omega arith) ∙ z in rw e refl
strlen-Holds m p (suc left) (c ∷ s) h k z l =
    let there : m (p + 1 + length s) ≡ 0 = ap m (omega arith) ∙ z in
    let later = strlen-Holds m (p + 1) left s (Holds-tail m p c s h) (k.1) there (omega arith) in
    let some_char : (m p == 0) ≡ false = ground (arith, Holds-head m p c s h, k.0) in
    let e : length s + 1 ≡ suc (length s) = omega arith in rw (some_char, later, e) refl

-- The characters that are kept of the line are put at `p`, and the rest is left.
abbrev Reads : List ℕ → Mem → ℕ → List ℕ → Option (Mem × List ℕ) → Type 0
Reads rest m p s r = (m' : Mem) × (r ≡ some (m', rest)) × Puts m m' p s

read_chars-Reads :
    (line rest : List ℕ) (m : Mem) (p len : ℕ)
    → IsLine line
    → Reads rest m (p + len) (kept line) (read_chars (line ++ new_line ∷ rest) m p len)
unfolding read_chars
read_chars-Reads [] rest m p len h =
    (m, refl, record { frame = λ x o. refl; holds = λ i k. absurd (omega arith) })
read_chars-Reads (c ∷ line) rest m p len h =
    let goes_on : (c == new_line) ≡ false = ground arith in
    elim (Bool-cases (c == back_slant)) [
      | inl dropped ↦
          let (m', e, q) = read_chars-Reads line rest m p len (h.2) in
          rw (goes_on, dropped) (m', e, q)
      | inr other ↦
          let next = copy m (p + len) (c ∷ []) in
          let (m', e, q) = read_chars-Reads line rest next p (len + 1) (h.2) in
          let behind : p + (len + 1) ≡ p + len + 1 = omega arith in
          rw (goes_on, other)
            (
              m',
              e,
              Puts-cons m next m' (p + len) c (kept line) (copy-Holds-head m (p + len) c)
                  (λ x o. copy_frame m (p + len) (c ∷ []) x (omega arith))
                  (subst (λ a. Puts next m' a (kept line)) behind q),
            )
    ]

tabs_to_spaces-Puts :
    (m : Mem) (p : ℕ) (s : List ℕ)
    → Holds m p s
    → Puts m (tabs_to_spaces m p (length s)) p (map no_tab s)
unfolding tabs_to_spaces
tabs_to_spaces-Puts m p [] h = record { frame = λ x o. refl; holds = λ i k. absurd (omega arith) }
tabs_to_spaces-Puts m p (c ∷ s) h =
    let next = if m p == tab then copy m p (space ∷ []) else m in
    let outside : (x : ℕ) → (x < p) ⊎ (p + 1 ≤ x) → next x ≡ m x =
      λ x o. ground (arith, copy_frame m p (space ∷ []) x) in
    Puts-cons m next (tabs_to_spaces next (p + 1) (length s)) p (no_tab c) (map no_tab s)
      (ground (arith, Holds-head m p c s h, copy-Holds-head m p space)) outside
      (tabs_to_spaces-Puts next (p + 1) s
        (λ i k. outside (p + 1 + i) (omega arith) ∙ Holds-tail m p c s h i k))

-- The string `s` stands in the buffer at `b`.
pub record IsBuffered (m : Mem) (b : ℕ) (s : List ℕ) : Type 0 where
  pub holds : Holds m b s
  pub ends : m (b + length s) ≡ 0
  pub is_string : IsString s
  pub fits : length s < cmd_buffer_size

IsBuffered-strlen :
    (m : Mem) (b : ℕ) (s : List ℕ) → IsBuffered m b s → strlen m b cmd_buffer_size ≡ some (length s)
IsBuffered-strlen m b s t = strlen-Holds m b cmd_buffer_size s t.holds t.is_string t.ends t.fits

-- What is kept has no backslash.
kept-Lacks : (line : List ℕ) → Lacks back_slant (kept line)
kept-Lacks [] = tt
kept-Lacks (c ∷ line) = ground (arith, kept-Lacks line)

Lacks-get_or :
    (delim : ℕ) (s : List ℕ) (i : ℕ) → Lacks delim s → i < length s → get_or s i 0 ≢ delim
Lacks-get_or delim [] i h k = absurd (omega arith)
Lacks-get_or delim (c ∷ s) zero h k = h.0
Lacks-get_or delim (c ∷ s) (suc i) h k = Lacks-get_or delim s i (h.1) (omega arith)

continue_lines-stops :
    (fuel : ℕ) (chars : List ℕ) (m : Mem) (b n : ℕ)
    → m (b + n - 1) ≢ back_slant
    → continue_lines fuel chars m b n ≡ some (m, chars)
unfolding continue_lines
continue_lines-stops zero chars m b n h = ground arith
continue_lines-stops (suc fuel) chars m b n h =
    let stops : (m (b + n - 1) == back_slant) ≡ false = ground arith in rw stops refl

-- The string is put into the buffer, and the rest is left.
abbrev pub Fills : List ℕ → ℕ → List ℕ → Option (Mem × List ℕ) → Type 0
Fills rest b s r = (m : Mem) × (r ≡ some (m, rest)) × IsBuffered m b s

read_line-Fills :
    (line rest : List ℕ) (m : Mem) (b : ℕ)
    → IsLine line
    → length (kept line) < cmd_buffer_size
    → m (b + length (kept line)) ≡ 0
    → Fills rest b (kept line) (read_line (line ++ new_line ∷ rest) m b cmd_buffer_size)
unfolding read_line
read_line-Fills line rest m b h l z =
    let (m1, e, q) = read_chars-Reads line rest m b 0 h in
    let s = kept line in
    let start : b + 0 ≡ b = omega arith in
    let put : Puts m m1 b s = subst (λ a. Puts m m1 a s) start q in
    let text : IsBuffered m1 b s = record {
      holds = put.holds;
      ends = put.frame (b + length s) (omega arith) ∙ z;
      is_string = kept-IsString line h;
      fits = l;
    } in
    let last = copy m1 (b + length s) (0 ∷ []) in
    rw (e, IsBuffered-strlen m1 b s text, read_line)
      (
        last,
        refl,
        record {
          holds =
              λ i k. copy_frame m1 (b + length s) (0 ∷ []) (b + i) (omega arith) ∙ text.holds i k;
          ends = copy-Holds-head m1 (b + length s) 0;
          is_string = text.is_string;
          fits = l;
        },
      )

finish_input-Fills :
    (line rest : List ℕ) (m : Mem) (b : ℕ)
    → 0 < length (kept line)
    → IsBuffered m b (kept line)
    → Fills rest b (map no_tab (kept line)) (finish_input rest m b)
unfolding finish_input
finish_input-Fills line rest m b some_left t =
    let s = kept line in
    let i = length s - 1 in
    let at : b + length s - 1 ≡ b + i = omega arith in
    let last : m (b + length s - 1) ≢ back_slant = λ e.
      Lacks-get_or back_slant s i (kept-Lacks line) (omega arith)
        (sym (t.holds i (omega arith)) ∙ ap m (sym at) ∙ e) in
    let put = tabs_to_spaces-Puts m b s t.holds in
    rw
      (
        IsBuffered-strlen m b s t,
        continue_lines-stops (length rest) rest m b (length s) last,
        IsBuffered-strlen m b s t,
        finish_input,
      )
      (
        tabs_to_spaces m b (length s),
        refl,
        record {
          holds = put.holds;
          ends =
              let e = length-map s in
              put.frame (b + length (map no_tab s)) (omega arith)
              ∙ ap m (ap (λ n. b + n) e)
              ∙ t.ends;
          is_string = map-IsString s t.is_string;
          fits = omega (arith, length-map s, t.fits);
        },
      )

-- XX
pub read_input-Fills :
    (line rest : List ℕ) (m : Mem) (b : ℕ)
    → IsLine line
    → 0 < length (kept line)
    → length (kept line) < cmd_buffer_size
    → Fills rest b (map no_tab (kept line)) (read_input (line ++ new_line ∷ rest) m b)
unfolding read_input fill
read_input-Fills line rest m b h some_left l =
    let (m1, e, t) = read_line-Fills line rest (fill m b 0 cmd_buffer_size) b h l (ground arith) in
    rw (e, read_input) (finish_input-Fills line rest m1 b some_left t)

pub IsBuffered-buffer_text :
    (m : Mem) (b : ℕ) (s : List ℕ) → IsBuffered m b s → buffer_text m b ≡ some s
unfolding buffer_text
IsBuffered-buffer_text m b s t =
    rw (IsBuffered-strlen m b s t, read-Holds m b s t.holds, buffer_text) refl
