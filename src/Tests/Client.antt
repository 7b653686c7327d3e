-- ===== src/Tests/Client.antt =====
-- A line typed into the shell, and an insertion and a query with their replies.
use emeralddb_src.Base.{
  ℕ, ◌≡◌, refl, List, [], ◌∷◌, ◌++◌, Option, none, some, arith, true, inl, inr, ◌≢◌, length, ap,
}
use emeralddb_src.Core.{rc_word}
use emeralddb_src.Memory.{Mem, load32, store32, copy}
use emeralddb_src.Msg.{build, check_buffer, put_header, build_insert, build_query}
use emeralddb_src.Msg.Written.{replied}
use emeralddb_src.Socket.{
  bytes, takes, time_over, interrupts, fails, is_set, closed, read, await, send, send_loop,
}
use emeralddb_src.Client.Line.{new_line}
use emeralddb_src.Client.Prompt.{insert_command, prompt}
use emeralddb_src.Client.Prompt.Chosen.{prompt-Chosen}
use emeralddb_src.Client.Message.{
  Answers, Order, send_order, send_built, use_sent, execute_insert, execute_query,
}
use emeralddb_src.Client.Message.Delivered.{Arrives}
use emeralddb_src.Client.Message.Replied.{IsReply, replied-IsReply}
use emeralddb_src.Client.Message.Reported.{Reports, execute_query-Reports}
use emeralddb_src.Client.Message.Unheard.{FailsFirst, execute_insert_unheard}
use emeralddb_src.Client.Message.Ordered.{Ordered, send_order-Ordered}
use emeralddb_src.Tests.Objects.{sized_bson}

-- "insert", a tab, "x", a backslash, a space and "y"
abbrev line : List ℕ
line = b'i' ∷ b'n' ∷ b's' ∷ b'e' ∷ b'r' ∷ b't' ∷ 9 ∷ b'x' ∷ 92 ∷ 32 ∷ b'y' ∷ []

abbrev blank : Mem
blank x = 0

prompt-Chosen_example :
    (m : Mem) × (prompt (line ++ new_line ∷ []) blank 100
      ≡ some (m, [], some (insert_command, (b'x' ∷ []) ∷ (b'y' ∷ []) ∷ [])))
prompt-Chosen_example =
    prompt-Chosen insert_command ((b'x' ∷ []) ∷ (b'y' ∷ []) ∷ []) line [] blank 100 (ground arith)
      (ground arith) refl (omega arith)

-- Every text describes the object of six bytes.
abbrev fromjson : List ℕ → Option ℕ
fromjson json = some 5

-- The server's memory, with the reply at 100
abbrev server : Mem
server = replied sized_bson 22 0 (5 ∷ []) blank 100

server-IsReply : IsReply sized_bson server 100 0 (some 5)
server-IsReply =
    replied-IsReply sized_bson none (record { mem = blank; start = 100; size = 100 }) (omega arith)
      0 (omega arith) (some 5) blank 100 (omega arith)

-- The length comes after a timeout, the rest in two parts.
abbrev answers : Answers
answers = record {
  connected = true;
  still_connected = true;
  realloc = none;
  send_selects = interrupts ∷ is_set ∷ [];
  sends = takes 10 ∷ takes 8 ∷ [];
  lengths =
      record { selects = time_over ∷ []; answers = closed ∷ [] }
      ∷ record { selects = is_set ∷ []; answers = bytes (read server 100 4) ∷ [] }
      ∷ [];
  bodies =
      record {
        selects = is_set ∷ [];
        answers = bytes (read server 104 5) ∷ bytes (read server 109 13) ∷ [];
      }
      ∷ [];
}

some_bytes : (c : ℕ) (s : List ℕ) → c ∷ s ≢ []
some_bytes c s e = absurd (omega (arith, ap length e))

answers-Arrives : Arrives server 100 22 answers
unfolding read await
answers-Arrives = (
  refl,
  inl (refl, inr (refl, (some_bytes _ _, ([], refl, refl)))),
  inr (refl, (some_bytes _ _, (read server 109 13, refl, (some_bytes _ _, ([], refl, refl))))),
)

send_order-Ordered_example :
    Ordered sized_bson fromjson 5 10000
      (send_order sized_bson fromjson (build_insert sized_bson) answers blank 10000 [])
send_order-Ordered_example =
    send_order-Ordered sized_bson fromjson 5 (omega arith) answers tt
      (inr (omega arith, omega arith, inr (omega arith, omega arith, omega arith))) blank 10000 []
      refl

abbrev memory_of : Option Order → Mem
memory_of none = blank
memory_of (some (code, said, m, out)) = m

abbrev bytes_of : Option Order → List ℕ
bytes_of none = []
bytes_of (some (code, said, m, out)) = out

abbrev insertion : Option Order
insertion = send_order sized_bson fromjson (build_insert sized_bson) answers blank 10000 []

abbrev question : Option Order
question = send_order sized_bson fromjson (build_query sized_bson) answers blank 10000 []

insertion_sent : insertion ≡ some (0, none, memory_of insertion, bytes_of insertion)
unfolding send_order send_built use_sent build_insert build check_buffer send await send_loop
    rc_word load32 store32 copy put_header
insertion_sent = refl

question_sent : question ≡ some (0, none, memory_of question, bytes_of question)
unfolding send_order send_built use_sent build_query build check_buffer send await send_loop rc_word
    load32 store32 copy put_header
question_sent = refl

execute_query-Reports_example :
    Reports sized_bson 0
      (bytes_of question)
      (some 5)
      (execute_query sized_bson fromjson answers blank 10000 20000 ([] ∷ []))
execute_query-Reports_example =
    execute_query-Reports sized_bson fromjson server 100 0 (some 5) server-IsReply (omega arith)
      answers refl answers-Arrives blank 10000 20000 [] [] (memory_of question) (bytes_of question)
      question_sent

-- The socket fails while the length is awaited.
abbrev broken : Answers
broken = record answers { lengths = record { selects = fails ∷ []; answers = [] } ∷ [] }

broken-FailsFirst : FailsFirst broken
unfolding await
broken-FailsFirst = record {
  still = refl;
  first = record { selects = fails ∷ []; answers = [] };
  others = [];
  lengths_are = refl;
  breaks = refl;
  next = record {
    selects = is_set ∷ [];
    answers = bytes (read server 104 5) ∷ bytes (read server 109 13) ∷ [];
  };
  more = [];
  bodies_are = refl;
  ready = refl;
}

execute_insert_unheard_example :
    Reports sized_bson 0
      (bytes_of insertion)
      none
      (execute_insert sized_bson fromjson broken blank 10000 20000 ([] ∷ []))
unfolding send_order send_built
execute_insert_unheard_example =
    execute_insert_unheard sized_bson fromjson broken blank 10000 20000 [] [] (memory_of insertion)
      (bytes_of insertion) refl broken-FailsFirst insertion_sent
