-- ===== src/Client/Message/Replied.antt =====
-- The reply that the client reads, as msgBuildReply of msg/msg.cpp builds it.
use emeralddb_src.Base.{ℕ, ◌+◌, ◌<◌, ◌≡◌, refl, [], ◌∷◌, Option, none, some, arith, length}
use emeralddb_src.Bson.{Bson}
use emeralddb_src.Memory.{Mem, Holds, load32, store32, copy-Holds, add32}
use emeralddb_src.Msg.{Buffer, message_len, build_reply, copy_objects, put_header, op_reply}
use emeralddb_src.Msg.Objects.{returned, total_size}
use emeralddb_src.Msg.Build.{Built, build-Built}
use emeralddb_src.Msg.Written.{replied, replied_words, replied_frame}

module _ (bson : Bson) where
  open bson use {Obj, objsize, objdata}

  -- The object, if there is one, stands at `p`.
  abbrev pub HoldsObject : Mem → ℕ → Option Obj → Type 0
  HoldsObject m p none = Unit {0}
  HoldsObject m p (some o) = Holds m p (objdata o)

  -- A reply with a code and an object or none stands at `p`.
  pub record IsReply (m : Mem) (p code : ℕ) (o : Option Obj) : Type 0 where
    pub size : message_len m p ≡ 16 + total_size bson (returned o)
    pub code_is : load32 m (p + 8) ≡ code
    pub count_is : load32 m (p + 12) ≡ length (returned o)
    pub holds : HoldsObject m (p + 16) o

  module _ (answer : Option ℕ) (b : Buffer) (sized : b.size < 2147483648) (code : ℕ)
      (word : code < 4294967296) where
    pub replied-IsReply :
        (o : Option Obj) (m : Mem) (p : ℕ)
        → 16 + total_size bson (returned o) < 2147483648
        → IsReply (replied bson (16 + total_size bson (returned o)) code (returned o) m p) p code o
    unfolding copy_objects
    replied-IsReply none m p small =
        let w = replied_words bson 16 [] m p small code word (omega arith) in
        record { size = w.0; code_is = w.2; count_is = w.3; holds = tt }
    replied-IsReply (some o) m p small =
        let size = 16 + total_size bson (o ∷ []) in
        let w = replied_words bson size (o ∷ []) m p small code word (omega arith) in
        record {
          size = w.0;
          code_is = w.2;
          count_is = w.3;
          holds =
              copy-Holds (store32 (store32 (put_header m p size op_reply) (p + 8) code) (p + 12) 1)
                (p + 16) (objdata o);
        }

    -- A reply of less than 2 ^ 31 bytes in all
    pub build_reply-IsReply :
        (o : Option Obj)
        → 16 + total_size bson (returned o) < 2147483648
        → Built answer b
            (16 + total_size bson (returned o))
            (λ m p. IsReply m p code o)
            (build_reply bson answer b code o)
    unfolding build_reply copy_objects
    build_reply-IsReply none small =
        build-Built answer b 16 (replied bson 16 code []) (λ m p. IsReply m p code none) small sized
          (λ m p. replied_frame bson 16 [] m p code refl) (λ m p. replied-IsReply none m p small)
    build_reply-IsReply (some o) small =
        let size = 16 + total_size bson (o ∷ []) in
        let e : add32 16 (objsize o) ≡ size = omega arith in
        rw (e, build_reply)
          (build-Built answer b size (replied bson size code (o ∷ []))
            (λ m p. IsReply m p code (some o)) small sized
            (λ m p. replied_frame bson size (o ∷ []) m p code refl)
            (λ m p. replied-IsReply (some o) m p small))
