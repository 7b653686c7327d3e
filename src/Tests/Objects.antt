-- ===== src/Tests/Objects.antt =====
-- Objects for the tests: an object is its number of bytes less one, which its first byte holds.
use emeralddb_src.Base.{ℕ, zero, suc, ◌+◌, ◌≡◌, refl, ap, ◌∙◌, true, List, [], ◌∷◌, arith, length}
use emeralddb_src.Memory.{Mem, Holds}
use emeralddb_src.Bson.{Bson}

abbrev pub sevens : ℕ → List ℕ
sevens zero = []
sevens (suc n) = 7 ∷ sevens n

pub length-sevens : (n : ℕ) → length (sevens n) ≡ n
length-sevens zero = refl
length-sevens (suc n) = omega (arith, length-sevens n)

pub first_byte : (m : Mem) (p n : ℕ) → Holds m p (n ∷ sevens n) → m p ≡ n
first_byte m p n h = ap m (omega arith) ∙ h 0 (omega arith)

abbrev pub sized_bson : Bson
sized_bson = record {
  Obj = ℕ;
  objsize = λ n. n + 1;
  objdata = λ n. n ∷ sevens n;
  obj_at = λ m p. m p;
  has_id = λ n. true;
  length-objdata = λ n. omega (arith, length-sevens n);
  obj_at-objdata = first_byte;
}
