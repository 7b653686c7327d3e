-- ===== src/Client/Line.antt =====
-- client/edb.cpp: the line that the user types, and its words. What getchar returns is a list of characters;
-- `none` is a call that has not returned after them, or that runs out of the buffer.
pub mod Split
pub mod Input
use emeralddb_src.Base.{
  ℕ, zero, suc, ◌+◌, ◌-◌, ◌&&◌, List, [], ◌∷◌, Option, none, some, ltb, ◌==◌, if◌then◌else◌, length,
  get_or,
}
use emeralddb_src.Memory.{Mem, copy, fill}
use emeralddb_src.Socket.{read}

-- SPACE, TAB, BACK_SLANT and NEW_LINE
abbrev pub space : ℕ
space = 32

abbrev pub tab : ℕ
tab = 9

abbrev pub back_slant : ℕ
back_slant = 92

abbrev pub new_line : ℕ
new_line = 10

abbrev pub cmd_buffer_size : ℕ
cmd_buffer_size = 512

-- strlen (m + p), if there is a zero among the next `left` bytes
unfoldable pub strlen : Mem → ℕ → ℕ → Option ℕ
strlen m p zero = none
strlen m p (suc left) =
    if m p == 0
    then some 0
    else elim (strlen m (p + 1) left) [ none ↦ none | some n ↦ some (n + 1) ]

-- The loop of `readLine`, with the characters after the new line.
unfoldable pub read_chars : List ℕ → Mem → ℕ → ℕ → Option (Mem × List ℕ)
read_chars [] m p len = none
read_chars (ch ∷ rest) m p len =
    let kept = read_chars rest (copy m (p + len) (ch ∷ [])) p (len + 1) in
    let dropped = read_chars rest m p len in
    if ch == new_line then some (m, rest) else if ch == back_slant then dropped else kept

-- `readLine`, to `p` in a buffer that has `left` bytes from there on.
unfoldable pub read_line : List ℕ → Mem → ℕ → ℕ → Option (Mem × List ℕ)
read_line chars m p left = elim (read_chars chars m p 0) [
  | none ↦ none
  | some (m1, rest) ↦ elim (strlen m1 p left) [
    | none ↦ none
    | some len ↦ some (copy m1 (p + len) (0 ∷ []), rest)
  ]
]

-- The loop of `readInput` over lines that end with a backslash; a line takes a character at least, so that
-- there are at most `fuel` of them.
unfoldable pub continue_lines : ℕ → List ℕ → Mem → ℕ → ℕ → Option (Mem × List ℕ)
continue_lines zero chars m b n =
    if m (b + n - 1) == back_slant && ltb n cmd_buffer_size then none else some (m, chars)
continue_lines (suc fuel) chars m b n =
    let later : Option (Mem × List ℕ) =
      elim (read_line chars m (b + n - 1) (cmd_buffer_size - (n - 1))) [
        | none ↦ none
        | some (m1, rest) ↦ continue_lines fuel rest m1 b n
      ] in
    if m (b + n - 1) == back_slant && ltb n cmd_buffer_size then later else some (m, chars)

-- The loop of `readInput` over the `left` characters from `p` on.
unfoldable pub tabs_to_spaces : Mem → ℕ → ℕ → Mem
tabs_to_spaces m p zero = m
tabs_to_spaces m p (suc left) =
    tabs_to_spaces (if m p == tab then copy m p (space ∷ []) else m) (p + 1) left

-- `readInput` after its first line
unfoldable pub finish_input : List ℕ → Mem → ℕ → Option (Mem × List ℕ)
finish_input chars m b = elim (strlen m b cmd_buffer_size) [
  | none ↦ none
  | some n ↦ elim (continue_lines (length chars) chars m b n) [
    | none ↦ none
    | some (m1, rest) ↦ elim (strlen m1 b cmd_buffer_size) [
      | none ↦ none
      | some k ↦ some (tabs_to_spaces m1 b k, rest)
    ]
  ]
]

-- `readInput` to the buffer at `b`
unfoldable pub read_input : List ℕ → Mem → ℕ → Option (Mem × List ℕ)
read_input chars m b = elim (read_line chars (fill m b 0 cmd_buffer_size) b cmd_buffer_size) [
  | none ↦ none
  | some (m1, rest) ↦ finish_input rest m1 b
]

-- The string in the buffer
unfoldable pub buffer_text : Mem → ℕ → Option (List ℕ)
buffer_text m b = elim (strlen m b cmd_buffer_size) [ none ↦ none | some n ↦ some (read m b n) ]

-- text.substr (pos, n)
unfoldable pub substr : List ℕ → ℕ → ℕ → List ℕ
substr text pos zero = []
substr text pos (suc n) = get_or text pos 0 ∷ substr text (pos + 1) n

-- The inner loop of `split`; `left` characters follow `pos`.
unfoldable pub word_end : List ℕ → ℕ → ℕ → ℕ → ℕ
word_end text delim pos zero = pos
word_end text delim pos (suc left) =
    let later = word_end text delim (pos + 1) left in
    if get_or text pos 0 == delim then pos else later

-- The outer loop of `split`; each round takes a character at least, so that there are at most `fuel`.
unfoldable pub split_from : ℕ → List ℕ → ℕ → ℕ → List (List ℕ)
split_from zero text delim first = []
split_from (suc fuel) text delim first =
    let pos = word_end text delim first (length text - first) in
    let later = split_from fuel text delim (pos + 1) in
    if ltb first (length text) then substr text first (pos - first) ∷ later else []

-- `split`
unfoldable pub split : List ℕ → ℕ → List (List ℕ)
split text delim = split_from (length text) text delim 0
