-- ===== src/Msg.antt =====
-- msg/msg.cpp and include/msg.hpp: the messages between client and server. An int is the 32-bit word
-- that holds it.
pub mod Objects
pub mod Build
pub mod Written
pub mod RoundTrip
use emeralddb_src.Base.{
  ℕ, ◌+◌, ◌%◌, Bool, not, List, [], ◌∷◌, Option, none, some, ltb, ◌==◌, if◌then◌else◌, length,
}
use emeralddb_src.Core.{Rc, ok, oom, invalidarg, is_error}
use emeralddb_src.Bson.{Bson}
use emeralddb_src.Memory.{Mem, load32, store32, copy, move, add32, lt_int}

-- OP_REPLY and the others
abbrev pub op_reply : ℕ
op_reply = 1

abbrev pub op_insert : ℕ
op_insert = 2

abbrev pub op_delete : ℕ
op_delete = 3

abbrev pub op_query : ℕ
op_query = 4

abbrev pub op_command : ℕ
op_command = 5

abbrev pub op_disconnect : ℕ
op_disconnect = 6

abbrev pub op_connect : ℕ
op_connect = 7

abbrev pub op_snapshot : ℕ
op_snapshot = 8

-- sizeof of MsgHeader, MsgReply, MsgInsert, MsgDelete, MsgQuery and MsgCommand
abbrev pub header_size : ℕ
header_size = 8

abbrev pub reply_size : ℕ
reply_size = 16

abbrev pub insert_size : ℕ
insert_size = 12

abbrev pub delete_size : ℕ
delete_size = 8

abbrev pub query_size : ℕ
query_size = 8

abbrev pub command_size : ℕ
command_size = 12

-- The fields of a MsgHeader at `p`.
abbrev pub message_len : Mem → ℕ → ℕ
message_len m p = load32 m p

abbrev pub op_code : Mem → ℕ → ℕ
op_code m p = load32 m (p + 4)

-- The memory, and the buffer that `ppBuffer` and `pBufferSize` stand for.
pub record Buffer : Type 0 where
  pub mem : Mem
  pub start : ℕ
  pub size : ℕ

-- msgCheckBuffer, with the address that `realloc` answers.
unfoldable pub check_buffer : Option ℕ → Buffer → ℕ → Rc × Buffer
check_buffer answer b length =
    if not (lt_int b.size length)
    then (ok, b)
    else if lt_int length 0
    then (invalidarg, b)
    else elim answer [
      | none ↦ (oom, b)
      | some a ↦ (ok, record { mem = move b.mem a b.start b.size; start = a; size = length })
    ]

-- header.messageLen = size; header.opCode = op
unfoldable pub put_header : Mem → ℕ → ℕ → ℕ → Mem
put_header m p size op = store32 (store32 m p size) (p + 4) op

-- The two checks of the header that every msgExtract function makes; `least` is the sizeof of its
-- message.
unfoldable pub check_header : Mem → ℕ → ℕ → ℕ → Rc
check_header m p least op =
    if lt_int (message_len m p) least
    then invalidarg
    else if not (op_code m p == op)
    then invalidarg
    else ok

-- Where the objects of a message with a count start, NULL when the count is 0.
unfoldable pub objects_start : ℕ → ℕ → Option ℕ
objects_start count p = if count == 0 then none else some p

-- The part that the builders share: the buffer is made large enough, and `write` fills it.
unfoldable pub build : Option ℕ → Buffer → ℕ → (Mem → ℕ → Mem) → Rc × Buffer
build answer b size write =
    let (rc, b') = check_buffer answer b size in
    if is_error rc then (rc, b') else (ok, record b' { mem = write b'.mem b'.start })

-- msgExtraReply: on success the return code, the number of objects and where they start
unfoldable pub extract_reply : Mem → ℕ → Rc × Option (ℕ × ℕ × Option ℕ)
extract_reply m p =
    let rc = check_header m p reply_size op_reply in
    let count = load32 m (p + 12) in
    if is_error rc
    then (rc, none)
    else (ok, some (load32 m (p + 8), count, objects_start count (p + reply_size)))

-- msgExtractInsert
unfoldable pub extract_insert : Mem → ℕ → Rc × Option (ℕ × Option ℕ)
extract_insert m p =
    let rc = check_header m p insert_size op_insert in
    let count = load32 m (p + 8) in
    if is_error rc then (rc, none) else (ok, some (count, objects_start count (p + insert_size)))

-- msgExtractCommand
unfoldable pub extract_command : Mem → ℕ → Rc × Option (ℕ × Option ℕ)
extract_command m p =
    let rc = check_header m p command_size op_command in
    let count = load32 m (p + 8) in
    if is_error rc then (rc, none) else (ok, some (count, objects_start count (p + command_size)))

module _ (bson : Bson) where
  open bson use {Obj, objsize, objdata, obj_at}

  -- The loop over the objects of a vector, that adds up their sizes.
  unfoldable pub add_sizes : ℕ → List Obj → ℕ
  add_sizes size [] = size
  add_sizes size (o ∷ rest) = add_sizes (add32 size (objsize o)) rest

  -- The loop over the objects of a vector, that copies them one after the other.
  unfoldable pub copy_objects : Mem → ℕ → List Obj → Mem
  copy_objects m p [] = m
  copy_objects m p (o ∷ rest) = copy_objects (copy m p (objdata o)) (p + objsize o) rest

  -- msgBuildReply
  unfoldable pub build_reply : Option ℕ → Buffer → ℕ → Option Obj → Rc × Buffer
  build_reply answer b code none =
      build answer b reply_size
        λ m p. store32 (store32 (put_header m p reply_size op_reply) (p + 8) code) (p + 12) 0
  build_reply answer b code (some o) =
      let size = add32 reply_size (objsize o) in
      build answer b size λ m p.
        copy (store32 (store32 (put_header m p size op_reply) (p + 8) code) (p + 12) 1)
          (p + reply_size) (objdata o)

  -- msgBuildInsert, of one object
  unfoldable pub build_insert : Option ℕ → Buffer → Obj → Rc × Buffer
  build_insert answer b o =
      let size = add32 insert_size (objsize o) in
      build answer b size λ m p.
        copy (store32 (put_header m p size op_insert) (p + 8) 1) (p + insert_size) (objdata o)

  -- msgBuildInsert, of a vector
  unfoldable pub build_inserts : Option ℕ → Buffer → List Obj → Rc × Buffer
  build_inserts answer b os =
      let size = add_sizes insert_size os in
      build answer b size λ m p.
        copy_objects (store32 (put_header m p size op_insert) (p + 8) (length os)) (p + insert_size)
          os

  -- msgBuildDelete
  unfoldable pub build_delete : Option ℕ → Buffer → Obj → Rc × Buffer
  build_delete answer b key =
      let size = add32 delete_size (objsize key) in
      build answer b size
        λ m p. copy (put_header m p size op_delete) (p + delete_size) (objdata key)

  -- msgBuildQuery
  unfoldable pub build_query : Option ℕ → Buffer → Obj → Rc × Buffer
  build_query answer b key =
      let size = add32 query_size (objsize key) in
      build answer b size λ m p. copy (put_header m p size op_query) (p + query_size) (objdata key)

  -- msgBuildCommand, of one object
  unfoldable pub build_command : Option ℕ → Buffer → Obj → Rc × Buffer
  build_command answer b o =
      let size = add32 command_size (objsize o) in
      build answer b size λ m p.
        copy (store32 (put_header m p size op_command) (p + 8) 1) (p + command_size) (objdata o)

  -- msgBuildCommand, of a vector
  unfoldable pub build_commands : Option ℕ → Buffer → List Obj → Rc × Buffer
  build_commands answer b os =
      let size = add_sizes command_size os in
      build answer b size λ m p.
        copy_objects (store32 (put_header m p size op_command) (p + 8) (length os))
          (p + command_size) os

  -- msgExtractDelete
  unfoldable pub extract_delete : Mem → ℕ → Rc × Option Obj
  extract_delete m p =
      let rc = check_header m p delete_size op_delete in
      if is_error rc then (rc, none) else (ok, some (obj_at m (p + delete_size)))

  -- msgExtractQuery
  unfoldable pub extract_query : Mem → ℕ → Rc × Option Obj
  extract_query m p =
      let rc = check_header m p query_size op_query in
      if is_error rc then (rc, none) else (ok, some (obj_at m (p + query_size)))
