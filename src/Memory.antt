-- ===== src/Memory.antt =====
-- The memory that the C++ code reaches through pointers: a byte for each address. What the code
-- does by a cast to `unsigned int *`, by `memcpy` and by `memmove` are the functions below.
pub mod Puts
use emeralddb_src.Base.{
  Bool, ℕ, ◌+◌, ◌-◌, ◌*◌, ◌/◌, ◌%◌, ◌≤◌, ◌<◌, ◌≡◌, ap, ◌∙◌, ◌⊎◌, List, ◌&&◌, arith, ltb, leb,
  if◌then◌else◌, length, get_or,
}

abbrev pub Mem : Type 0
Mem = ℕ → ℕ

abbrev pub u32_mod : ℕ
u32_mod = 4294967296

abbrev pub add32 : ℕ → ℕ → ℕ
add32 a b = (a + b) % 4294967296

-- The difference of two unsigned 32-bit numbers, which wraps.
abbrev pub sub32 : ℕ → ℕ → ℕ
sub32 a b = (a + (4294967296 - b % 4294967296)) % 4294967296

-- a < b for two ints
abbrev pub lt_int : ℕ → ℕ → Bool
lt_int a b = ltb ((a + 2147483648) % 4294967296) ((b + 2147483648) % 4294967296)

-- *(unsigned int *)(m + a), little endian.
unfoldable pub load32 : Mem → ℕ → ℕ
load32 m a = m a + 256 * m (a + 1) + 65536 * m (a + 2) + 16777216 * m (a + 3)

-- *(unsigned int *)(m + a) = v
unfoldable pub store32 : Mem → ℕ → ℕ → Mem
store32 m a v x =
    if leb a x && ltb x (a + 4)
    then (if ltb x (a + 1)
        then v % 256
        else if ltb x (a + 2)
        then v / 256 % 256
        else if ltb x (a + 3)
        then v / 65536 % 256
        else v / 16777216 % 256)
    else m x

-- memcpy (m + a, bytes, length bytes)
unfoldable pub copy : Mem → ℕ → List ℕ → Mem
copy m a bytes x = if leb a x && ltb x (a + length bytes) then get_or bytes (x - a) 0 else m x

-- memset (m + a, c, n)
unfoldable pub fill : Mem → ℕ → ℕ → ℕ → Mem
fill m a c n x = if leb a x && ltb x (a + n) then c else m x

-- memmove (m + to, m + from, n)
unfoldable pub move : Mem → ℕ → ℕ → ℕ → Mem
move m to from n x = if leb to x && ltb x (to + n) then m (from + (x - to)) else m x

-- The two memories hold the same bytes from `lo` up to `hi`.
abbrev pub Agree : Mem → Mem → ℕ → ℕ → Type 0
Agree m m' lo hi = (x : ℕ) → lo ≤ x → x < hi → m' x ≡ m x

-- The memory holds `bytes` at `a`.
abbrev pub Holds : Mem → ℕ → List ℕ → Type 0
Holds m a bytes = (i : ℕ) → i < length bytes → m (a + i) ≡ get_or bytes i 0

pub load32-store32 : (m : Mem) (a v : ℕ) → v < 4294967296 → load32 (store32 m a v) a ≡ v
unfolding load32 store32
load32-store32 m a v h = ground arith

pub store32_frame : (m : Mem) (a v x : ℕ) → (x < a) ⊎ (a + 4 ≤ x) → store32 m a v x ≡ m x
unfolding store32
store32_frame m a v x h = ground arith

pub copy_frame :
    (m : Mem) (a : ℕ) (bytes : List ℕ) (x : ℕ)
    → (x < a) ⊎ (a + length bytes ≤ x)
    → copy m a bytes x ≡ m x
unfolding copy
copy_frame m a bytes x h = ground arith

pub move_frame : (m : Mem) (to from n x : ℕ) → (x < to) ⊎ (to + n ≤ x) → move m to from n x ≡ m x
unfolding move
move_frame m to from n x h = ground arith

pub move_inside : (m : Mem) (to from n i : ℕ) → i < n → move m to from n (to + i) ≡ m (from + i)
unfolding move
move_inside m to from n i h =
    let e : from + (to + i - to) ≡ from + i = omega arith in ground (arith, ap m e)

pub copy-Holds : (m : Mem) (a : ℕ) (bytes : List ℕ) → Holds (copy m a bytes) a bytes
unfolding copy
copy-Holds m a bytes i h =
    let e : a + i - a ≡ i = omega arith in ground (arith, ap (λ k. get_or bytes k 0) e)

pub load32-Agree :
    (m m' : Mem) (a lo hi : ℕ) → Agree m m' lo hi → lo ≤ a → a + 4 ≤ hi → load32 m' a ≡ load32 m a
unfolding load32
load32-Agree m m' a lo hi h p q = omega (
  arith,
  h a (omega arith) (omega arith),
  h (a + 1) (omega arith) (omega arith),
  h (a + 2) (omega arith) (omega arith),
  h (a + 3) (omega arith) (omega arith),
)

pub load32-store32_ne :
    (m : Mem) (a b v : ℕ) → (b + 4 ≤ a) ⊎ (a + 4 ≤ b) → load32 (store32 m a v) b ≡ load32 m b
unfolding load32
load32-store32_ne m a b v h = ground (
  arith,
  store32_frame m a v b,
  store32_frame m a v (b + 1),
  store32_frame m a v (b + 2),
  store32_frame m a v (b + 3),
)

pub load32-copy_ne :
    (m : Mem) (a b : ℕ) (bytes : List ℕ)
    → (b + 4 ≤ a) ⊎ (a + length bytes ≤ b)
    → load32 (copy m a bytes) b ≡ load32 m b
unfolding load32
load32-copy_ne m a b bytes h = ground (
  arith,
  copy_frame m a bytes b,
  copy_frame m a bytes (b + 1),
  copy_frame m a bytes (b + 2),
  copy_frame m a bytes (b + 3),
)

pub load32-move_ne :
    (m : Mem) (to from n b : ℕ)
    → (b + 4 ≤ to) ⊎ (to + n ≤ b)
    → load32 (move m to from n) b ≡ load32 m b
unfolding load32
load32-move_ne m to from n b h = ground (
  arith,
  move_frame m to from n b,
  move_frame m to from n (b + 1),
  move_frame m to from n (b + 2),
  move_frame m to from n (b + 3),
)

-- A word of a block of bytes that stands elsewhere in the other memory.
pub load32_shift :
    (m m' : Mem) (from to n d x y : ℕ)
    → ((k : ℕ) → k < n → m' (to + k) ≡ m (from + k))
    → d + 4 ≤ n
    → x ≡ to + d
    → y ≡ from + d
    → load32 m' x ≡ load32 m y
unfolding load32
load32_shift m m' from to n d x y h l p q =
    let byte : (k : ℕ) → k < 4 → m' (x + k) ≡ m (y + k) =
      λ k b. ap m' (omega arith) ∙ h (d + k) (omega arith) ∙ ap m (omega arith) in
    let first : m' x ≡ m y = ap m' (omega arith) ∙ byte 0 (omega arith) ∙ ap m (omega arith) in
    omega (arith, first, byte 1 (omega arith), byte 2 (omega arith), byte 3 (omega arith))
