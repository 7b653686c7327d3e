-- ===== src/FileOp.antt =====
-- oss/ossPrimitiveFileOp.cpp: the loop of Write over the answers of the system.
use emeralddb_src.Base.{
  ℕ, ◌+◌, ◌≤◌, ◌≡◌, refl, ◌⊎◌, inl, inr, Bool, false, List, [], ◌∷◌, Option, none, some, arith,
  ◌==◌, if◌then◌else◌, if_cases,
}
use emeralddb_src.Core.{Rc, ok, errno}

-- One call of write: some bytes are written, a signal interrupts it, or it fails.
pub data Answer : Type 0 where
  wrote : ℕ → Answer
  interrupted : Answer
  fails : ℕ → Answer

-- The loop of Write on a valid handle, for `size` bytes of which `current` are written; `none` if the
-- answers do not suffice.
unfoldable pub write : List Answer → ℕ → ℕ → Option (Rc × ℕ)
write [] current size = none
write (wrote n ∷ rest) current size =
    let later = write rest (current + n) size in
    if current + n == size then some (ok, current + n) else later
write (interrupted ∷ rest) current size = write rest current size
write (fails e ∷ rest) current size = some (errno e, current)

-- Write of `size` bytes, with whether the handle is valid; `text_size` is strlen of the buffer.
unfoldable pub write_file : Bool → List Answer → ℕ → ℕ → Option (Rc × ℕ)
write_file valid answers text_size size =
    if valid then write answers 0 (if size == 0 then text_size else size) else some (ok, 0)

-- One call of read: a number of bytes, a signal interrupts it, or it fails.
pub data ReadAnswer : Type 0 where
  got : ℕ → ReadAnswer
  read_interrupted : ReadAnswer
  read_fails : ℕ → ReadAnswer

-- The loop of Read: the code and the number of bytes read
unfoldable pub read_loop : List ReadAnswer → Option (Rc × ℕ)
read_loop [] = none
read_loop (got n ∷ rest) = some (ok, n)
read_loop (read_interrupted ∷ rest) = read_loop rest
read_loop (read_fails e ∷ rest) = some (errno e, 0)

-- Read, with whether the handle is valid; without, it returns what errno holds.
unfoldable pub read_file : Bool → ℕ → List ReadAnswer → Option (Rc × ℕ)
read_file valid last_errno answers = if valid then read_loop answers else some (errno last_errno, 0)

-- No call writes more than it is asked to, and the answers go on until all is written or a call fails.
abbrev pub Suffices : List Answer → ℕ → ℕ → Type 0
Suffices [] current size = ⊥
Suffices (wrote n ∷ rest) current size =
    (current + n ≤ size) × ((current + n ≡ size) ⊎ Suffices rest (current + n) size)
Suffices (interrupted ∷ rest) current size = Suffices rest current size
Suffices (fails e ∷ rest) current size = Unit {0}

-- The errno of the first call that fails, and how much the calls before it wrote
abbrev pub first_failure : List Answer → Option (ℕ × ℕ)
first_failure [] = none
first_failure (wrote n ∷ rest) = elim (first_failure rest) [
  | none ↦ none
  | some (e, k) ↦ some (e, n + k)
]
first_failure (interrupted ∷ rest) = first_failure rest
first_failure (fails e ∷ rest) = some (e, 0)

-- The code is the errno of the first call that fails, and `n` bytes are written by then.
abbrev pub FailsAt : List Answer → ℕ → ℕ → Rc → ℕ → Type 0
FailsAt answers current size rc n =
    (e : ℕ) × (k : ℕ) × (rc ≡ errno e)
    × (first_failure answers ≡ some (e, k))
    × (n ≡ current + k)
    × (n ≤ size)

-- The result of a write of `size` bytes of which `current` were written before the answers.
abbrev pub IsWritten : List Answer → ℕ → ℕ → Option (Rc × ℕ) → Type 0
IsWritten answers current size none = ⊥
IsWritten answers current size (some (rc, n)) =
    ((rc ≡ ok) × (n ≡ size)) ⊎ FailsAt answers current size rc n

-- What holds of the answers after one that writes holds from it on.
wrote-IsWritten :
    (n : ℕ) (rest : List Answer) (current size : ℕ) (r : Option (Rc × ℕ))
    → IsWritten rest (current + n) size r
    → IsWritten (wrote n ∷ rest) current size r
wrote-IsWritten n rest current size none h = h
wrote-IsWritten n rest current size (some (rc, w)) (inl h) = inl h
wrote-IsWritten n rest current size (some (rc, w)) (inr (e, k, code, first, sum, less)) =
    inr (e, n + k, code, rw first refl, omega arith, less)

-- If no call writes more than it is asked to and the answers go on until all is written or a call
-- fails, Write returns, with EDB_OK and all bytes written, or with the errno of the first call that
-- fails and the bytes written that the calls before it wrote, which are no more than asked for.
pub write-IsWritten :
    (answers : List Answer) (current size : ℕ)
    → current ≤ size
    → Suffices answers current size
    → IsWritten answers current size (write answers current size)
unfolding write
write-IsWritten [] current size h s = s
write-IsWritten (wrote n ∷ rest) current size h s =
    if_cases (IsWritten (wrote n ∷ rest) current size) (current + n == size) _ _
      (λ e. inl (refl, ground arith))
      λ e.
        wrote-IsWritten n rest current size _
          (write-IsWritten rest (current + n) size s.0 (later s.1 e))
  where
    later :
        (current + n ≡ size) ⊎ Suffices rest (current + n) size
        → (current + n == size) ≡ false
        → Suffices rest (current + n) size
    later (inl d) e = absurd (ground arith)
    later (inr d) e = d
write-IsWritten (interrupted ∷ rest) current size h s = write-IsWritten rest current size h s
write-IsWritten (fails e ∷ rest) current size h s = inr (e, 0, refl, refl, omega arith, h)
