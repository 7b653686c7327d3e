-- ===== src/Agent/Process.antt =====
-- pmdProcessAgentRequest of pmd/pmdAgent.cpp.
use emeralddb_src.Base.{
  ℕ, ◌+◌, ◌<◌, ◌≤◌, ◌≡◌, refl, ◌⊎◌, inl, inr, true, false, not, List, Option, none, some, length,
  ◌==◌, arith, if_cases, Option-cases, ◌||◌, Bool-cases,
}
use emeralddb_src.Core.{Rc, ok, invalidarg, rc_word, rc_word_bound, is_error}
use emeralddb_src.Bson.{Bson}
use emeralddb_src.Memory.{Mem, load32, lt_int}
use emeralddb_src.Dms.File.{DmsFile}
use emeralddb_src.Dms.Insertion.{Turn}
use emeralddb_src.Rtn.{rtn_insert, rtn_find, rtn_remove}
use emeralddb_src.Msg.{
  Buffer, message_len, op_code, objects_start, extract_insert, extract_query, extract_reply,
  check_header, build_reply, op_insert, op_query, op_delete, op_snapshot, op_command, op_disconnect,
}
use emeralddb_src.Msg.Objects.{returned, total_size, ReadsAll}
use emeralddb_src.Msg.Build.{Built, Built-cases}
use emeralddb_src.Msg.RoundTrip.{extract_reply-build_reply}
use emeralddb_src.Agent.{
  AgentBson, Performed, performed, null_read, unfinished, Processed, processed, null_read_in,
  unfinished_in, perform_insert, perform_keyed, perform, reply, process, record_id,
}

module _ (bson : Bson) (lib : AgentBson bson) where
  open bson use {Obj, objsize, obj_at}
  open lib use {empty, snapshot}

  -- The objects that a reply carries are of less than 2 ^ 31 bytes with the header.
  abbrev pub FitsReply : Type 0
  FitsReply =
      (16 + objsize empty < 2147483648)
      × ((o : Obj) → snapshot ≡ some o → 16 + objsize o < 2147483648)

  -- The buffer holds a reply with the code and the object, and nothing outside of it has changed; or the
  -- buffer was too small for that reply, `realloc` failed, and nothing has changed at all.
  abbrev pub Replies : Option ℕ → Buffer → Rc → Option Obj → Buffer → Type 0
  Replies answer b rc o b' =
      (extract_reply b'.mem b'.start ≡ (
        ok,
        some (rc_word rc, length (returned o), objects_start (length (returned o)) (b'.start + 16)),
      ))
        × (message_len b'.mem b'.start ≡ 16 + total_size bson (returned o))
        × ReadsAll bson b'.mem (b'.start + 16) (returned o)
        × (16 + total_size bson (returned o) ≤ b'.size)
        × (b'.size < 2147483648)
        × ((x : ℕ) → (x < b'.start) ⊎ (b'.start + b'.size ≤ x) → b'.mem x ≡ b.mem x)
      ⊎ (b' ≡ b) × (answer ≡ none) × (b.size < 16 + total_size bson (returned o))

  build_reply-Replies :
      (answer : Option ℕ) (b : Buffer) (rc : Rc) (o : Option Obj) (r : Rc × Buffer)
      → Built answer b
          (16 + total_size bson (returned o))
          (λ m p.
            (extract_reply m p ≡ (
              ok,
              some (rc_word rc, length (returned o), objects_start (length (returned o)) (p + 16)),
            ))
            × (message_len m p ≡ 16 + total_size bson (returned o))
            × ReadsAll bson m (p + 16) (returned o))
          r
      → Replies answer b rc o r.1
  build_reply-Replies answer b rc o r h = elim (Built-cases answer b _ _ r h) [
    | inl ((code, len, all), fits, bound, frame) ↦ inl (code, len, all, fits, bound, frame)
    | inr (e, small, no_memory, same) ↦ inr (same, no_memory, small)
  ]

  -- The record store is as it was, or the message is an insertion and rtnInsert left it so with this code.
  abbrev pub Stores : List Turn → ℕ → DmsFile → Rc → DmsFile → Type 0
  Stores turns op f rc g =
      (g ≡ f) ⊎ (op ≡ op_insert) × ((o : Obj) × (rtn_insert bson turns f o ≡ some (rc, g)))

  -- What every path of pmdProcessAgentRequest comes to, for the packet at `p` in the memory of `b`: without a
  -- disconnect the reply carries its return code, and an object with a query and a snapshot only; with a
  -- disconnect no reply is made. The two others need an insertion: of a message without an object, or one
  -- whose rtnInsert has not returned.
  abbrev pub Answered : List Turn → Option ℕ → ℕ → Buffer → DmsFile → Processed → Type 0
  Answered turns answer p b f (processed rc true b' g) =
      (op_code b.mem p ≡ op_disconnect) × (rc ≡ ok) × (b' ≡ b) × (g ≡ f)
  Answered turns answer p b f (processed rc false b' g) =
      (o : Option Obj) × ((o ≡ none)
        ⊎ (op_code b.mem p ≡ op_snapshot)
        ⊎ (op_code b.mem p ≡ op_query))
      × Replies answer b rc o b'
      × Stores turns (op_code b.mem p) f rc g
  Answered turns answer p b f null_read_in =
      (op_code b.mem p ≡ op_insert) × (load32 b.mem (p + 8) ≡ 0)
  Answered turns answer p b f unfinished_in =
      (op_code b.mem p ≡ op_insert) × ((o : Obj) × (rtn_insert bson turns f o ≡ none))

  -- What `perform` comes to, before the reply is made.
  abbrev Performs : List Turn → Mem → ℕ → DmsFile → Performed Obj → Type 0
  Performs turns m p f (performed rc true o g) = (op_code m p ≡ op_disconnect) × (rc ≡ ok) × (g ≡ f)
  Performs turns m p f (performed rc false o g) =
      (16 + objsize o < 2147483648) × Stores turns (op_code m p) f rc g
  Performs turns m p f null_read = (op_code m p ≡ op_insert) × (load32 m (p + 8) ≡ 0)
  Performs turns m p f unfinished =
      (op_code m p ≡ op_insert) × ((o : Obj) × (rtn_insert bson turns f o ≡ none))

  module _ (turns : List Turn) (p : ℕ) (f : DmsFile) (fits : FitsReply) (m : Mem) where
    perform_keyed-Performs :
        (run : DmsFile → Obj → Rc × DmsFile)
        → ((o : Obj) → (run f o).1 ≡ f)
        → Performs turns m p f (perform_keyed bson lib run m p f)
    unfolding perform_keyed
    perform_keyed-Performs run same =
        if_cases (Performs turns m p f) (is_error (extract_query bson m p).0) _ _
          (λ e. (fits.0, inl refl))
          λ e.
            if_cases (Performs turns m p f) (not (lib.readable m (p + 8))) _ _
              (λ e. (fits.0, inl refl))
              λ e. (fits.0, inl (same (record_id bson lib (extract_query bson m p).1)))

    perform_insert-Performs :
        op_code m p ≡ op_insert → Performs turns m p f (perform_insert bson lib turns m p f)
    unfolding perform_insert extract_insert objects_start
    perform_insert-Performs op = elim (Bool-cases (is_error (check_header m p 12 op_insert))) [
      | inl e ↦ rw (e, e, perform_insert) (fits.0, inl refl)
      | inr e ↦
          rw (e, perform_insert)
            elim (Bool-cases (load32 m (p + 8) == 0)) [
              | inl z ↦ rw z (op, ground arith)
              | inr z ↦ rw z (
                  if_cases (Performs turns m p f) (not (lib.readable m (p + 12))) _ _
                    (λ e. (fits.0, inl refl))
                    λ e.
                      if_cases (Performs turns m p f) (not (lib.id_is_first (obj_at m (p + 12)))) _
                        _ (λ e. (fits.0, inl refl))
                        λ e. elim (Option-cases (rtn_insert bson turns f (obj_at m (p + 12)))) [
                          | inl n ↦ rw n (op, (obj_at m (p + 12), n))
                          | inr ((rc, g), s) ↦ rw s (fits.0, inr (op, (obj_at m (p + 12), s)))
                        ])
            ]
    ]

    perform-Performs : Performs turns m p f (perform bson lib turns m p f)
    unfolding perform
    perform-Performs =
        let op = op_code m p in
        let P : Performed Obj → Type 0 = Performs turns m p f in
        let refused : P (performed invalidarg false empty f) = (fits.0, inl refl) in
        if_cases P (lt_int (message_len m p) 8) _ _ (λ e. refused)
          λ e.
            if_cases P (op == op_insert) _ _ (λ e. perform_insert-Performs (ground arith))
              λ e.
                if_cases P (op == op_query) _ _
                  (λ e. perform_keyed-Performs (rtn_find bson) λ o. refl)
                  λ e.
                    if_cases P (op == op_delete) _ _
                      (λ e. perform_keyed-Performs (rtn_remove bson) λ o. refl)
                      λ e.
                        if_cases P (op == op_snapshot) _ _
                          (λ e. elim (Option-cases snapshot) [
                            | inl n ↦ rw n refused
                            | inr (o, s) ↦ rw s (fits.1 o s, inl refl)
                          ])
                          λ e.
                            if_cases P (op == op_command) _ _ (λ e. (fits.0, inl refl))
                              λ e.
                                if_cases P (op == op_disconnect) _ _
                                  (λ e. (ground arith, refl, refl)) λ e. refused

  module _ (turns : List Turn) (answer : Option ℕ) (p : ℕ) (f : DmsFile) (b : Buffer)
      (sized : b.size < 2147483648) where
    replied :
        (rc : Rc) (o : Option Obj)
        → 16 + total_size bson (returned o) < 2147483648
        → Replies answer b rc o (build_reply bson answer b (rc_word rc) o).1
    replied rc o small =
        build_reply-Replies answer b rc o _
          (extract_reply-build_reply bson answer b sized (rc_word rc) o (rc_word_bound rc) small)

    reply-Answered :
        (r : Performed Obj)
        → Performs turns b.mem p f r
        → Answered turns answer p b f (reply bson lib answer b (op_code b.mem p) r)
    unfolding reply
    reply-Answered (performed rc true o g) (op, e, same) = (op, e, refl, same)
    reply-Answered (performed rc false o g) (small, stored) =
        elim (Bool-cases (op_code b.mem p == op_snapshot || op_code b.mem p == op_query)) [
          | inl e ↦ rw e (some o, inr (ground arith), replied rc (some o) (omega arith), stored)
          | inr e ↦ rw e (none, inl refl, replied rc none (omega arith), stored)
        ]
    reply-Answered null_read h = h
    reply-Answered unfinished h = h

  -- On every path of pmdProcessAgentRequest, whatever the packet holds: without a disconnect the
  -- reply carries the return code, with an object for a query or a snapshot only, unless the buffer
  -- was too small and realloc failed; the record store changes only by an rtnInsert that returned
  -- that code; with a disconnect no reply is made. The two other ends need an insertion, without an
  -- object or not returned. The objects of replies are of less than 2 ^ 31 bytes with the header,
  -- and so is the buffer.
  pub process-Answered :
      FitsReply
      → (turns : List Turn) (answer : Option ℕ) (p : ℕ) (b : Buffer) (f : DmsFile)
      → b.size < 2147483648
      → Answered turns answer p b f (process bson lib turns answer p b f)
  unfolding process
  process-Answered fits turns answer p b f sized =
      reply-Answered turns answer p f b sized (perform bson lib turns b.mem p f)
        (perform-Performs turns p f fits b.mem)
