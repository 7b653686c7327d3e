-- ===== src/Msg/Objects.antt =====
-- The objects of a message of msg/msg.cpp, one after the other.
use emeralddb_src.Base.{
  ℕ, ◌+◌, ◌≤◌, ◌<◌, ◌≡◌, refl, ◌∙◌, ◌⊎◌, Option, none, some, List, [], ◌∷◌, arith, inl,
}
use emeralddb_src.Bson.{Bson}
use emeralddb_src.Memory.{Mem, load32, load32-Agree, copy, copy_frame, copy-Holds, add32}
use emeralddb_src.Msg.{add_sizes, copy_objects}

-- What an optional object is as a vector.
abbrev pub returned : {O : Type 0} → Option O → List O
returned none = []
returned (some o) = o ∷ []

module _ (bson : Bson) where
  open bson use {Obj, objsize, objdata, length-objdata, obj_at, obj_at-objdata}

  abbrev pub total_size : List Obj → ℕ
  total_size [] = 0
  total_size (o ∷ rest) = objsize o + total_size rest

  -- The objects can be read at `p`, each behind the one before.
  abbrev pub ReadsAll : Mem → ℕ → List Obj → Type 0
  ReadsAll m p [] = Unit {0}
  ReadsAll m p (o ∷ rest) = (obj_at m p ≡ o) × ReadsAll m (p + objsize o) rest

  pub add_sizes_lem :
      (size : ℕ) (os : List Obj)
      → size + total_size os < 4294967296
      → add_sizes bson size os ≡ size + total_size os
  unfolding add_sizes
  add_sizes_lem size [] h = omega arith
  add_sizes_lem size (o ∷ rest) h =
      let e : add32 size (objsize o) ≡ size + objsize o = omega arith in
      rw e (add_sizes_lem (size + objsize o) rest (omega arith) ∙ omega arith)

  pub copy_objects_frame :
      (m : Mem) (p : ℕ) (os : List Obj) (x : ℕ)
      → (x < p) ⊎ (p + total_size os ≤ x)
      → copy_objects bson m p os x ≡ m x
  unfolding copy_objects
  copy_objects_frame m p [] x h = refl
  copy_objects_frame m p (o ∷ rest) x h =
      copy_objects_frame (copy m p (objdata o)) (p + objsize o) rest x (omega arith)
      ∙ copy_frame m p (objdata o) x (omega (arith, length-objdata o))

  -- The words before the objects are kept.
  pub copy_objects_word :
      (m : Mem) (p : ℕ) (os : List Obj) (b : ℕ)
      → b + 4 ≤ p
      → load32 (copy_objects bson m p os) b ≡ load32 m b
  copy_objects_word m p os b h =
      load32-Agree m (copy_objects bson m p os) b b (b + 4)
        (λ x l r. copy_objects_frame m p os x (inl (omega arith))) (omega arith) (omega arith)

  pub copy_objects-ReadsAll :
      (m : Mem) (p : ℕ) (os : List Obj) → ReadsAll (copy_objects bson m p os) p os
  unfolding copy_objects
  copy_objects-ReadsAll m p [] = tt
  copy_objects-ReadsAll m p (o ∷ rest) =
      let first = copy m p (objdata o) in
      (
        obj_at-objdata (copy_objects bson first (p + objsize o) rest) p o (λ i h.
            copy_objects_frame first (p + objsize o) rest (p + i)
              (inl (omega (arith, length-objdata o)))
            ∙ copy-Holds m p (objdata o) i h),
        copy_objects-ReadsAll first (p + objsize o) rest,
      )
