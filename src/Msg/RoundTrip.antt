-- ===== src/Msg/RoundTrip.antt =====
-- The msgExtract functions of msg/msg.cpp on what the msgBuild functions made.
use emeralddb_src.Base.{ℕ, ◌+◌, ◌<◌, ◌≡◌, refl, Option, none, some, List, [], ◌∷◌, arith, length}
use emeralddb_src.Core.{ok}
use emeralddb_src.Bson.{Bson}
use emeralddb_src.Memory.{add32}
use emeralddb_src.Msg.{
  Buffer, message_len, copy_objects, add_sizes, objects_start, build_reply, build_insert,
  build_inserts, build_delete, build_query, build_command, build_commands, extract_reply,
  extract_insert, extract_delete, extract_query, extract_command, op_insert, op_delete, op_query,
  op_command,
}
use emeralddb_src.Msg.Objects.{returned, total_size, ReadsAll, add_sizes_lem}
use emeralddb_src.Msg.Build.{Built, Built-map}
use emeralddb_src.Msg.Written.{counted-Built, keyed-Built, replied-Built}

module _ (bson : Bson) (answer : Option ℕ) (b : Buffer) where
  open bson use {Obj, objsize, obj_at}

  -- One object sent as an insertion, or as a command, is the vector of that object sent.
  pub build_insert-build_inserts :
      (o : Obj)
      → (build_insert bson answer b o ≡ build_inserts bson answer b (o ∷ []))
        × (build_command bson answer b o ≡ build_commands bson answer b (o ∷ []))
  unfolding build_insert build_inserts build_command build_commands add_sizes copy_objects
  build_insert-build_inserts o = (refl, refl)

  module _ (sized : b.size < 2147483648) where
    -- A vector of less than 2 ^ 31 bytes in all, sent as an insertion and extracted: the count is
    -- that of the vector, and its objects can be read one behind the other from where they start.
    -- With no object the start is NULL.
    pub extract_insert-build_inserts :
        (os : List Obj)
        → 12 + total_size bson os < 2147483648
        → length os < 4294967296
        → Built answer b
            (12 + total_size bson os)
            (λ m p.
              (extract_insert m p ≡ (ok, some (length os, objects_start (length os) (p + 12))))
              × (message_len m p ≡ 12 + total_size bson os)
              × ReadsAll bson m (p + 12) os)
            (build_inserts bson answer b os)
    unfolding build_inserts extract_insert
    extract_insert-build_inserts os small few =
        rw (add_sizes_lem bson 12 os (omega arith), build_inserts)
          (Built-map answer b (12 + total_size bson os)
            (λ m p (h, n, len, all). (rw (h, n, extract_insert) refl, len, all)) _
            (counted-Built bson answer b sized op_insert os (omega arith) small few))

    -- A vector of less than 2 ^ 31 bytes in all, sent as a command and extracted: the count is that
    -- of the vector, and its objects can be read one behind the other from where they start. With
    -- no object the start is NULL.
    pub extract_command-build_commands :
        (os : List Obj)
        → 12 + total_size bson os < 2147483648
        → length os < 4294967296
        → Built answer b
            (12 + total_size bson os)
            (λ m p.
              (extract_command m p ≡ (ok, some (length os, objects_start (length os) (p + 12))))
              × (message_len m p ≡ 12 + total_size bson os)
              × ReadsAll bson m (p + 12) os)
            (build_commands bson answer b os)
    unfolding build_commands extract_command
    extract_command-build_commands os small few =
        rw (add_sizes_lem bson 12 os (omega arith), build_commands)
          (Built-map answer b (12 + total_size bson os)
            (λ m p (h, n, len, all). (rw (h, n, extract_command) refl, len, all)) _
            (counted-Built bson answer b sized op_command os (omega arith) small few))

    -- A key of less than 2 ^ 31 bytes with its header, sent as a query and extracted, is that key.
    pub extract_query-build_query :
        (key : Obj)
        → 8 + objsize key < 2147483648
        → Built answer b
            (8 + objsize key)
            (λ m p. (extract_query bson m p ≡ (ok, some key)) × (message_len m p ≡ 8 + objsize key))
            (build_query bson answer b key)
    unfolding build_query extract_query copy_objects
    extract_query-build_query key small =
        let e : add32 8 (objsize key) ≡ 8 + objsize key = omega arith in
        rw (e, build_query)
          (Built-map answer b (8 + objsize key)
            (λ m p (h, o, len, k). (rw (h, k, extract_query) refl, len)) _
            (keyed-Built bson answer b sized op_query key (omega arith) small))

    -- A key of less than 2 ^ 31 bytes with its header, sent as a deletion and extracted, is that
    -- key.
    pub extract_delete-build_delete :
        (key : Obj)
        → 8 + objsize key < 2147483648
        → Built answer b
            (8 + objsize key)
            (λ m p.
              (extract_delete bson m p ≡ (ok, some key)) × (message_len m p ≡ 8 + objsize key))
            (build_delete bson answer b key)
    unfolding build_delete extract_delete copy_objects
    extract_delete-build_delete key small =
        let e : add32 8 (objsize key) ≡ 8 + objsize key = omega arith in
        rw (e, build_delete)
          (Built-map answer b (8 + objsize key)
            (λ m p (h, o, len, k). (rw (h, k, extract_delete) refl, len)) _
            (keyed-Built bson answer b sized op_delete key (omega arith) small))

    -- A reply, with or without an object, of less than 2 ^ 31 bytes, extracted: the return code is
    -- the one sent, the number of objects is 0 or 1, and the object can be read where it starts.
    pub extract_reply-build_reply :
        (code : ℕ) (o : Option Obj)
        → code < 4294967296
        → 16 + total_size bson (returned o) < 2147483648
        → Built answer b
            (16 + total_size bson (returned o))
            (λ m p.
              (extract_reply m p ≡ (
                ok,
                some (code, length (returned o), objects_start (length (returned o)) (p + 16)),
              ))
              × (message_len m p ≡ 16 + total_size bson (returned o))
              × ReadsAll bson m (p + 16) (returned o))
            (build_reply bson answer b code o)
    unfolding build_reply extract_reply copy_objects
    extract_reply-build_reply code none word small =
        Built-map answer b 16
          (λ m p (h, c, n, len, all). (rw (h, c, n, extract_reply) refl, len, all)) _
          (replied-Built bson answer b sized code [] word small (omega arith))
    extract_reply-build_reply code (some o) word small =
        let e : add32 16 (objsize o) ≡ 16 + total_size bson (o ∷ []) = omega arith in
        rw (e, build_reply)
          (Built-map answer b (16 + total_size bson (o ∷ []))
            (λ m p (h, c, n, len, all). (rw (h, c, n, extract_reply) refl, len, all)) _
            (replied-Built bson answer b sized code (o ∷ []) word small (omega arith)))
