-- ===== src/Client/Message/Ordered.antt =====
-- `sendOrder` of client/command.cpp on the message that msgBuildInsert of msg/msg.cpp builds.
use emeralddb_src.Base.{
  ℕ, ◌+◌, ◌≤◌, ◌≡◌, refl, sym, subst, ◌∙◌, ◌⊎◌, inl, inr, List, [], ◌∷◌, Option, none, some, arith,
  false,
}
use emeralddb_src.Core.{Rc, ok, rc_word}
use emeralddb_src.Bson.{Bson}
use emeralddb_src.Memory.{Mem, fill, add32, lt_int}
use emeralddb_src.Msg.{
  Buffer, build, check_buffer, message_len, objects_start, build_insert, extract_insert,
}
use emeralddb_src.Msg.Build.{Built}
use emeralddb_src.Msg.RoundTrip.{build_insert-build_inserts, extract_insert-build_inserts}
use emeralddb_src.Socket.{send, read}
use emeralddb_src.Socket.Send.{IsSent, Suffices}
use emeralddb_src.Socket.Transfer.{Decides, send-cases}
use emeralddb_src.Client.{sock_send_failed}
use emeralddb_src.Client.Message.{Answers, Order, send_buf_size, use_sent, send_built, send_order}

build_in_place :
    (answer : Option ℕ) (b : Buffer) (size : ℕ) (write : Mem → ℕ → Mem)
    → lt_int b.size size ≡ false
    → (m1 : Mem) × (build answer b size write ≡ (ok, record b { mem = m1 }))
unfolding build check_buffer
build_in_place answer b size write enough = (write b.mem b.start, rw (enough, build) refl)

module _ (bson : Bson) (fromjson : List ℕ → Option bson.Obj) where
  open bson use {Obj, objsize, obj_at}

  -- A message of `n` bytes at `s` that is extracted as an insertion of the object
  abbrev pub IsInsertion : Obj → Mem → ℕ → Type 0
  IsInsertion o m s =
      (extract_insert m s ≡ (ok, some (1, some (s + 12))))
      × (message_len m s ≡ 12 + objsize o)
      × (obj_at m (s + 12) ≡ o)

  -- The message went out, or the first part of it and then an error.
  abbrev pub Ordered : Obj → ℕ → Option Order → Type 0
  Ordered o s none = ⊥
  Ordered o s (some (code, said, m, out)) =
      IsInsertion o m s
      × ((code ≡ 0) × (out ≡ read m s (12 + objsize o))
          ⊎ (code ≡ sock_send_failed) × ((k : ℕ) × (k ≤ 12 + objsize o) × (out ≡ read m s k)))

  in_place :
      (o : Obj) (answer : Option ℕ) (m : Mem) (s : ℕ)
      → 12 + objsize o ≤ send_buf_size
      → (m1 : Mem) × (build_insert bson answer
            (record { mem = m; start = s; size = send_buf_size })
            o
          ≡ (ok, record { mem = m1; start = s; size = send_buf_size }))
  unfolding build_insert
  in_place o answer m s fits =
      build_in_place answer (record { mem = m; start = s; size = send_buf_size })
        (add32 12 (objsize o)) _ (ground arith)

  module _ (o : Obj) (fits : 12 + objsize o ≤ send_buf_size) (a : Answers)
      (decides : Decides a.send_selects) (suffices : Suffices a.sends (12 + objsize o)) where
    -- The message is built in the send buffer.
    build_insert-IsInsertion :
        (answer : Option ℕ) (m : Mem) (s : ℕ)
        → (m1 : Mem) × (build_insert bson answer
              (record { mem = m; start = s; size = send_buf_size })
              o
            ≡ (ok, record { mem = m1; start = s; size = send_buf_size }))
          × IsInsertion o m1 s
    unfolding objects_start
    build_insert-IsInsertion answer m s =
        let b : Buffer = record { mem = m; start = s; size = send_buf_size } in
        let (m1, e) = in_place o answer m s fits in
        let same = (build_insert-build_inserts bson answer b o).0 in
        let built =
          extract_insert-build_inserts bson answer b (omega arith) (o ∷ []) (omega arith)
            (omega arith) in
        let there = subst (Built answer b (12 + (objsize o + 0)) _) (sym same ∙ e) built in
        (m1, e, ((there.0).0, (there.0).1 ∙ omega arith, ((there.0).2).0))

    use_sent-Ordered :
        (m : Mem) (s : ℕ)
        → IsInsertion o m s
        → (r : Option (Rc × List ℕ)) → IsSent m s (12 + objsize o) r
        → Ordered o s (use_sent m r)
    unfolding use_sent rc_word
    use_sent-Ordered m s is none h = absurd h
    use_sent-Ordered m s is (some (rc, out)) (inl (e, all)) = rw e (is, inl (refl, all))
    use_sent-Ordered m s is (some (rc, out)) (inr (e, part)) = rw e (is, inr (refl, part))

    send_built-Ordered :
        (m : Mem) (s size : ℕ)
        → IsInsertion o m s
        → Ordered o s (send_built a (ok, record { mem = m; start = s; size = size }))
    unfolding send_built use_sent read
    send_built-Ordered m s size is =
        let n = 12 + objsize o in
        elim (send-cases m s n (omega arith) (omega arith) a.send_selects a.sends decides
          suffices) [
            | inl (late, e) ↦ rw (is.1, e, send_built) (is, inr (refl, (0, omega arith, refl)))
            | inr sent ↦
                rw (is.1, send_built)
                  (use_sent-Ordered m s is (send a.send_selects a.sends m s n) sent)
          ]

    -- sendOrder of the text of an object whose insertion has at most 4096 bytes, where select
    -- decides and the answers of the system suffice: in the send buffer stands an insertion from
    -- which msgExtractInsert reads that object alone; all of it went out and EDB_OK is returned, or
    -- its first bytes did and EDB_SOCK_SEND_FAILED is returned.
    pub send_order-Ordered :
        (m : Mem) (s : ℕ) (json : List ℕ)
        → fromjson json ≡ some o
        → Ordered o s (send_order bson fromjson (build_insert bson) a m s json)
    unfolding send_order
    send_order-Ordered m s json described =
        let (m1, e, is) = build_insert-IsInsertion a.realloc (fill m s 0 send_buf_size) s in
        rw (described, e, send_order) (send_built-Ordered m1 s send_buf_size is)
