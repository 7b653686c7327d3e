-- ===== src/Tests/Msg.antt =====
-- The messages, with two objects of six and four bytes.
use emeralddb_src.Base.{ℕ, ◌+◌, ◌≡◌, some, List, [], ◌∷◌, arith}
use emeralddb_src.Core.{ok}
use emeralddb_src.Msg.{
  Buffer, message_len, objects_start, build_reply, build_insert, build_inserts, build_command,
  build_commands, extract_reply, extract_insert,
}
use emeralddb_src.Msg.Objects.{ReadsAll}
use emeralddb_src.Msg.Build.{Built}
use emeralddb_src.Msg.RoundTrip.{
  build_insert-build_inserts, extract_insert-build_inserts, extract_reply-build_reply,
}
use emeralddb_src.Tests.Objects.{sized_bson}

abbrev pub small_buffer : Buffer
small_buffer = record { mem = λ x. 0; start = 100; size = 16 }

abbrev objects : List ℕ
objects = 5 ∷ 3 ∷ []

build_insert-build_inserts_example :
    (build_insert sized_bson (some 1000) small_buffer 5
      ≡ build_inserts sized_bson (some 1000) small_buffer (5 ∷ []))
    × (build_command sized_bson (some 1000) small_buffer 5
        ≡ build_commands sized_bson (some 1000) small_buffer (5 ∷ []))
build_insert-build_inserts_example =
    build_insert-build_inserts sized_bson (some 1000) small_buffer 5

extract_insert-build_inserts_example :
    Built
      (some 1000)
      small_buffer
      22
      (λ m p.
        (extract_insert m p ≡ (ok, some (2, some (p + 12))))
        × (message_len m p ≡ 22)
        × ReadsAll sized_bson m (p + 12) objects)
      (build_inserts sized_bson (some 1000) small_buffer objects)
unfolding objects_start
extract_insert-build_inserts_example =
    extract_insert-build_inserts sized_bson (some 1000) small_buffer (omega arith) objects
      (omega arith) (omega arith)

extract_reply-build_reply_example :
    Built
      (some 1000)
      small_buffer
      22
      (λ m p.
        (extract_reply m p ≡ (ok, some (4294967294, 1, some (p + 16))))
        × (message_len m p ≡ 22)
        × ReadsAll sized_bson m (p + 16) (5 ∷ []))
      (build_reply sized_bson (some 1000) small_buffer 4294967294 (some 5))
unfolding objects_start
extract_reply-build_reply_example =
    extract_reply-build_reply sized_bson (some 1000) small_buffer (omega arith) 4294967294 (some 5)
      (omega arith) (omega arith)
