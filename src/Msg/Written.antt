-- ===== src/Msg/Written.antt =====
-- The words and the objects that the msgBuild functions of msg/msg.cpp write.
use emeralddb_src.Base.{ℕ, ◌+◌, ◌≤◌, ◌<◌, ◌≡◌, refl, ◌∙◌, ◌⊎◌, Option, List, [], ◌∷◌, arith, length}
use emeralddb_src.Core.{ok}
use emeralddb_src.Bson.{Bson}
use emeralddb_src.Memory.{Mem, load32, store32, load32-store32, load32-store32_ne, store32_frame}
use emeralddb_src.Msg.{
  Buffer, put_header, check_header, build, message_len, op_code, copy_objects, op_reply,
}
use emeralddb_src.Msg.Objects.{
  total_size, ReadsAll, copy_objects_frame, copy_objects_word, copy_objects-ReadsAll,
}
use emeralddb_src.Msg.Build.{
  Built, build-Built, put_header_words, put_header_frame, check_header-ok,
}

-- What the builder of a reply writes.
abbrev pub replied : (bson : Bson) → ℕ → ℕ → List bson.Obj → Mem → ℕ → Mem
replied bson size code os m p =
    copy_objects bson
      (store32 (store32 (put_header m p size op_reply) (p + 8) code) (p + 12) (length os)) (p + 16)
      os

-- What a builder of one key or of counted objects writes.
abbrev pub keyed : (bson : Bson) → ℕ → ℕ → List bson.Obj → Mem → ℕ → Mem
keyed bson size op os m p = copy_objects bson (put_header m p size op) (p + 8) os

abbrev pub counted : (bson : Bson) → ℕ → ℕ → ℕ → List bson.Obj → Mem → ℕ → Mem
counted bson size op n os m p =
    copy_objects bson (store32 (put_header m p size op) (p + 8) n) (p + 12) os

module _ (bson : Bson) (size op : ℕ) (os : List bson.Obj) (m : Mem) (p : ℕ) where
  open bson use {Obj, objsize, obj_at}

  module _ (small : size < 2147483648) (word : op < 2147483648) where
    keyed_words :
        (message_len (keyed bson size op os m p) p ≡ size)
        × (op_code (keyed bson size op os m p) p ≡ op)
    keyed_words =
        let w = put_header_words m p size op (omega arith) (omega arith) in
        (
          copy_objects_word bson (put_header m p size op) (p + 8) os p (omega arith) ∙ w.0,
          copy_objects_word bson (put_header m p size op) (p + 8) os (p + 4) (omega arith) ∙ w.1,
        )

    counted_words :
        (n : ℕ)
        → n < 4294967296
        → (message_len (counted bson size op n os m p) p ≡ size)
          × (op_code (counted bson size op n os m p) p ≡ op)
          × (load32 (counted bson size op n os m p) (p + 8) ≡ n)
    counted_words n h =
        let w = put_header_words m p size op (omega arith) (omega arith) in
        let c = store32 (put_header m p size op) (p + 8) n in
        ground (
          arith,
          w,
          copy_objects_word bson c (p + 12) os p,
          copy_objects_word bson c (p + 12) os (p + 4),
          copy_objects_word bson c (p + 12) os (p + 8),
          load32-store32_ne (put_header m p size op) (p + 8) p n,
          load32-store32_ne (put_header m p size op) (p + 8) (p + 4) n,
          load32-store32 (put_header m p size op) (p + 8) n,
        )

  keyed_frame :
      size ≡ 8 + total_size bson os
      → (x : ℕ) → (x < p) ⊎ (p + size ≤ x)
      → keyed bson size op os m p x ≡ m x
  keyed_frame e x h =
      copy_objects_frame bson (put_header m p size op) (p + 8) os x (omega arith)
      ∙ put_header_frame m p size op x (omega arith)

  counted_frame :
      (n : ℕ)
      → size ≡ 12 + total_size bson os
      → (x : ℕ) → (x < p) ⊎ (p + size ≤ x)
      → counted bson size op n os m p x ≡ m x
  counted_frame n e x h =
      copy_objects_frame bson (store32 (put_header m p size op) (p + 8) n) (p + 12) os x
        (omega arith)
      ∙ store32_frame (put_header m p size op) (p + 8) n x (omega arith)
      ∙ put_header_frame m p size op x (omega arith)

module _ (bson : Bson) (size : ℕ) (os : List bson.Obj) (m : Mem) (p : ℕ) where
  pub replied_words :
      size < 2147483648
      → (code : ℕ) → code < 4294967296
      → length os < 4294967296
      → (message_len (replied bson size code os m p) p ≡ size)
        × (op_code (replied bson size code os m p) p ≡ op_reply)
        × (load32 (replied bson size code os m p) (p + 8) ≡ code)
        × (load32 (replied bson size code os m p) (p + 12) ≡ length os)
  replied_words small code word few =
      let w = put_header_words m p size op_reply (omega arith) (omega arith) in
      let h = put_header m p size op_reply in
      let c = store32 h (p + 8) code in
      let d = store32 c (p + 12) (length os) in
      let n = length os in
      let keeps = copy_objects_word bson d (p + 16) os in
      (
        keeps p (omega arith)
            ∙ load32-store32_ne c (p + 12) p n (omega arith)
            ∙ load32-store32_ne h (p + 8) p code (omega arith)
            ∙ w.0,
        keeps (p + 4) (omega arith)
            ∙ load32-store32_ne c (p + 12) (p + 4) n (omega arith)
            ∙ load32-store32_ne h (p + 8) (p + 4) code (omega arith)
            ∙ w.1,
        keeps (p + 8) (omega arith)
            ∙ load32-store32_ne c (p + 12) (p + 8) n (omega arith)
            ∙ load32-store32 h (p + 8) code word,
        keeps (p + 12) (omega arith) ∙ load32-store32 c (p + 12) n few,
      )

  pub replied_frame :
      (code : ℕ)
      → size ≡ 16 + total_size bson os
      → (x : ℕ) → (x < p) ⊎ (p + size ≤ x)
      → replied bson size code os m p x ≡ m x
  replied_frame code e x h =
      let c = store32 (put_header m p size op_reply) (p + 8) code in
      copy_objects_frame bson (store32 c (p + 12) (length os)) (p + 16) os x (omega arith)
      ∙ store32_frame c (p + 12) (length os) x (omega arith)
      ∙ store32_frame (put_header m p size op_reply) (p + 8) code x (omega arith)
      ∙ put_header_frame m p size op_reply x (omega arith)

module _ (bson : Bson) (answer : Option ℕ) (b : Buffer) (sized : b.size < 2147483648) where
  open bson use {Obj, objsize, obj_at}

  -- What the builders of counted objects and of one key promise, whatever the operation.
  pub counted-Built :
      (op : ℕ) (os : List Obj)
      → op < 2147483648
      → 12 + total_size bson os < 2147483648
      → length os < 4294967296
      → Built answer b
          (12 + total_size bson os)
          (λ m p.
            (check_header m p 12 op ≡ ok)
            × (load32 m (p + 8) ≡ length os)
            × (message_len m p ≡ 12 + total_size bson os)
            × ReadsAll bson m (p + 12) os)
          (build answer b
            (12 + total_size bson os)
            (counted bson (12 + total_size bson os) op (length os) os))
  counted-Built op os word small few =
      let size = 12 + total_size bson os in
      build-Built answer b size (counted bson size op (length os) os) _ small sized
        (λ m p. counted_frame bson size op os m p (length os) refl)
        λ m p.
          let w = counted_words bson size op os m p small word (length os) few in
          (
            check_header-ok (counted bson size op (length os) os m p) p size 12 op w.0 w.1
                (omega arith) small,
            w.2,
            w.0,
            copy_objects-ReadsAll bson (store32 (put_header m p size op) (p + 8) (length os))
                (p + 12) os,
          )

  pub keyed-Built :
      (op : ℕ) (o : Obj)
      → op < 2147483648
      → 8 + objsize o < 2147483648
      → Built answer b
          (8 + objsize o)
          (λ m p.
            (check_header m p 8 op ≡ ok)
            × (op_code m p ≡ op)
            × (message_len m p ≡ 8 + objsize o)
            × (obj_at m (p + 8) ≡ o))
          (build answer b (8 + objsize o) (keyed bson (8 + objsize o) op (o ∷ [])))
  keyed-Built op o word small =
      let size = 8 + objsize o in
      build-Built answer b size (keyed bson size op (o ∷ [])) _ small sized
        (λ m p. keyed_frame bson size op (o ∷ []) m p (omega arith))
        λ m p.
          let w = keyed_words bson size op (o ∷ []) m p small word in
          (
            check_header-ok (keyed bson size op (o ∷ []) m p) p size 8 op w.0 w.1 (omega arith)
                small,
            w.1,
            w.0,
            (copy_objects-ReadsAll bson (put_header m p size op) (p + 8) (o ∷ [])).0,
          )

  pub replied-Built :
      (code : ℕ) (os : List Obj)
      → code < 4294967296
      → 16 + total_size bson os < 2147483648
      → length os < 4294967296
      → Built answer b
          (16 + total_size bson os)
          (λ m p.
            (check_header m p 16 op_reply ≡ ok)
            × (load32 m (p + 8) ≡ code)
            × (load32 m (p + 12) ≡ length os)
            × (message_len m p ≡ 16 + total_size bson os)
            × ReadsAll bson m (p + 16) os)
          (build answer b
            (16 + total_size bson os)
            (replied bson (16 + total_size bson os) code os))
  replied-Built code os word small few =
      let size = 16 + total_size bson os in
      build-Built answer b size (replied bson size code os) _ small sized
        (λ m p. replied_frame bson size os m p code refl)
        λ m p.
          let w = replied_words bson size os m p small code word few in
          (
            check_header-ok (replied bson size code os m p) p size 16 op_reply w.0 w.1 (omega arith)
                small,
            w.2,
            w.3,
            w.0,
            copy_objects-ReadsAll bson
                (store32 (store32 (put_header m p size op_reply) (p + 8) code) (p + 12) (length os))
                (p + 16) os,
          )
