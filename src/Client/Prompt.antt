-- ===== src/Client/Prompt.antt =====
-- client/edb.cpp and client/commandFactory.cpp: the command that the user's line asks for.
pub mod Chosen
use emeralddb_src.Base.{
  ℕ, Bool, true, false, ◌&&◌, List, [], ◌∷◌, Option, none, some, ◌==◌, if◌then◌else◌,
}
use emeralddb_src.Memory.{Mem}
use emeralddb_src.Client.Line.{space, read_input, buffer_text, split}

-- The classes of commands that are registered.
pub data Command : Type 0 where
  connect_command quit_command help_command insert_command : Command
  delete_command query_command snapshot_command : Command

-- Their names, from COMMAND_CONNECT on
abbrev pub command_name : Command → List ℕ
command_name connect_command = b'c' ∷ b'o' ∷ b'n' ∷ b'n' ∷ b'e' ∷ b'c' ∷ b't' ∷ []
command_name quit_command = b'q' ∷ b'u' ∷ b'i' ∷ b't' ∷ []
command_name help_command = b'h' ∷ b'e' ∷ b'l' ∷ b'p' ∷ []
command_name insert_command = b'i' ∷ b'n' ∷ b's' ∷ b'e' ∷ b'r' ∷ b't' ∷ []
command_name delete_command = b'd' ∷ b'e' ∷ b'l' ∷ b'e' ∷ b't' ∷ b'e' ∷ []
command_name query_command = b'q' ∷ b'u' ∷ b'e' ∷ b'r' ∷ b'y' ∷ []
command_name snapshot_command = b's' ∷ b'n' ∷ b'a' ∷ b'p' ∷ b's' ∷ b'h' ∷ b'o' ∷ b't' ∷ []

-- `addCommand`: the commands of `_cmdMap`, in the order in which they are added
abbrev pub cmd_map : List Command
cmd_map =
    connect_command ∷ quit_command ∷ help_command ∷ insert_command ∷ delete_command ∷ query_command
    ∷ snapshot_command ∷ []

-- std::string's ==
unfoldable pub same_text : List ℕ → List ℕ → Bool
same_text [] [] = true
same_text (c ∷ s) (d ∷ t) = c == d && same_text s t
same_text _ _ = false

-- `_cmdMap.find` over the commands left
unfoldable pub find_command : List Command → List ℕ → Option Command
find_command [] name = none
find_command (c ∷ rest) name =
    if same_text (command_name c) name then some c else find_command rest name

-- `getCommandProcesser`, `none` for NULL
unfoldable pub get_command_processer : List ℕ → Option Command
get_command_processer name = find_command cmd_map name

-- The loop of `prompt` over the words: the command's name and the options
unfoldable pub divide : List (List ℕ) → List ℕ × List (List ℕ)
divide [] = ([], [])
divide (cmd ∷ options) = (cmd, options)

-- The command that the words choose, with its options
unfoldable pub chosen : List (List ℕ) → Option (Command × List (List ℕ))
chosen words =
    let (cmd, options) = divide words in
    elim (get_command_processer cmd) [ none ↦ none | some c ↦ some (c, options) ]

-- `prompt`, with the buffer at `b`: the memory, the characters not read, and the command that is executed with
-- its options, if there is one
unfoldable pub prompt : List ℕ → Mem → ℕ → Option (Mem × List ℕ × Option (Command × List (List ℕ)))
prompt chars m b = elim (read_input chars m b) [
  | none ↦ none
  | some (m', rest) ↦ elim (buffer_text m' b) [
    | none ↦ none
    | some text ↦ some (m', rest, chosen (split text space))
  ]
]
