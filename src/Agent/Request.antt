-- ===== src/Agent/Request.antt =====
-- pmdProcessAgentRequest of pmd/pmdAgent.cpp on the messages that the client builds with msg/msg.cpp.
use emeralddb_src.Base.{
  ℕ, ◌+◌, ◌<◌, ◌≡◌, refl, true, false, List, ◌∷◌, Option, none, some, length, ◌==◌, arith,
}
use emeralddb_src.Core.{Rc, invalidarg}
use emeralddb_src.Bson.{Bson}
use emeralddb_src.Memory.{Mem, load32, lt_int, add32}
use emeralddb_src.Dms.File.{DmsFile}
use emeralddb_src.Dms.Insertion.{Turn}
use emeralddb_src.Rtn.{rtn_insert}
use emeralddb_src.Msg.{
  Buffer, message_len, op_code, objects_start, check_header, extract_insert, extract_query,
  build_delete, build_inserts, op_insert, op_delete, copy_objects,
}
use emeralddb_src.Msg.Objects.{total_size, add_sizes_lem}
use emeralddb_src.Msg.Build.{Built, Built-map, check_header_other, check_header-accepts}
use emeralddb_src.Msg.Written.{counted-Built, keyed-Built}
use emeralddb_src.Agent.{
  AgentBson, Performed, performed, unfinished, perform, perform_insert, perform_keyed,
}

module _ (bson : Bson) (lib : AgentBson bson) (turns : List Turn) (f : DmsFile) where
  open bson use {Obj, objsize, obj_at}
  open lib use {readable, id_is_first, empty}

  -- A packet with the operation code of a deletion is refused with EDB_INVALIDARG, whatever else it holds, and
  -- the record store is kept.
  pub perform_refuses_delete :
      (m : Mem) (p : ℕ)
      → op_code m p ≡ op_delete
      → perform bson lib turns m p f ≡ performed invalidarg false empty f
  unfolding perform perform_keyed extract_query
  perform_refuses_delete m p op =
      let other : check_header m p 8 4 ≡ invalidarg =
        check_header_other m p 8 4 (λ e. omega arith) in
      ground (arith, other)

  -- What rtnInsert returns, as the result of an insertion.
  abbrev pub inserted : Option (Rc × DmsFile) → Performed Obj
  inserted none = unfinished
  inserted (some (rc, g)) = performed rc false empty g

  module _ (answer : Option ℕ) (b : Buffer) (sized : b.size < 2147483648) where
    -- A deletion that the client builds, of a key of less than 2 ^ 31 bytes with the header, is
    -- refused with EDB_INVALIDARG, and the record store is kept.
    pub perform-build_delete :
        (key : Obj)
        → 8 + objsize key < 2147483648
        → Built answer b
            (8 + objsize key)
            (λ m p. perform bson lib turns m p f ≡ performed invalidarg false empty f)
            (build_delete bson answer b key)
    unfolding build_delete copy_objects
    perform-build_delete key small =
        let e : add32 8 (objsize key) ≡ 8 + objsize key = omega arith in
        rw (e, build_delete)
          (Built-map answer b (8 + objsize key)
            (λ m p (h, op, len, k). perform_refuses_delete m p op) _
            (keyed-Built bson answer b sized op_delete key (omega arith) small))

    -- An insertion that the client builds of one or more objects, of less than 2 ^ 31 bytes in all,
    -- the first of which is read without an exception and begins with _id: the agent hands the
    -- first object to rtnInsert and returns its code. The other objects are passed over.
    pub perform-build_inserts :
        (o : Obj) (os : List Obj)
        → ((m : Mem) (a : ℕ) → obj_at m a ≡ o → readable m a ≡ true)
        → id_is_first o ≡ true
        → 12 + total_size bson (o ∷ os) < 2147483648
        → length (o ∷ os) < 4294967296
        → Built answer b
            (12 + total_size bson (o ∷ os))
            (λ m p. perform bson lib turns m p f ≡ inserted (rtn_insert bson turns f o))
            (build_inserts bson answer b (o ∷ os))
    unfolding build_inserts perform perform_insert extract_insert objects_start
    perform-build_inserts o os reads first small few =
        rw (add_sizes_lem bson 12 (o ∷ os) (omega arith), build_inserts)
          (Built-map answer b (12 + total_size bson (o ∷ os))
            (λ m p (h, n, len, all).
              let op = check_header-accepts m p 12 op_insert h in
              let long : lt_int (message_len m p) 8 ≡ false = ground arith in
              let some_objects : (load32 m (p + 8) == 0) ≡ false = ground arith in
              rw (long, op, h, some_objects, reads m (p + 12) (all.0), all.0, first, perform) refl)
            _ (counted-Built bson answer b sized op_insert (o ∷ os) (omega arith) small few))
