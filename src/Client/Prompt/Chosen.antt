-- ===== src/Client/Prompt/Chosen.antt =====
-- `prompt` of client/edb.cpp on a line that names a command.
use emeralddb_src.Base.{
  ℕ, ◌<◌, ◌≡◌, refl, ap, ◌∙◌, List, [], ◌∷◌, ◌++◌, map, some, arith, length, length-append,
}
use emeralddb_src.Memory.{Mem}
use emeralddb_src.Client.Line.{space, new_line, cmd_buffer_size, split, read_input, buffer_text}
use emeralddb_src.Client.Line.Split.{join, Lacks, AreWords, split-join}
use emeralddb_src.Client.Line.Input.{
  kept, no_tab, length-map, IsLine, read_input-Fills, IsBuffered-buffer_text,
}
use emeralddb_src.Client.Prompt.{
  Command, connect_command, quit_command, help_command, insert_command, delete_command,
  query_command, snapshot_command, command_name, same_text, find_command, get_command_processer,
  divide, chosen, prompt,
}

get_command_processer_lem : (c : Command) → get_command_processer (command_name c) ≡ some c
unfolding get_command_processer find_command same_text
get_command_processer_lem connect_command = refl
get_command_processer_lem quit_command = refl
get_command_processer_lem help_command = refl
get_command_processer_lem insert_command = refl
get_command_processer_lem delete_command = refl
get_command_processer_lem query_command = refl
get_command_processer_lem snapshot_command = refl

name-Lacks : (c : Command) → Lacks space (command_name c)
name-Lacks connect_command = ground arith
name-Lacks quit_command = ground arith
name-Lacks help_command = ground arith
name-Lacks insert_command = ground arith
name-Lacks delete_command = ground arith
name-Lacks query_command = ground arith
name-Lacks snapshot_command = ground arith

name_bound : (c : Command) → 0 < length (command_name c)
name_bound connect_command = omega arith
name_bound quit_command = omega arith
name_bound help_command = omega arith
name_bound insert_command = omega arith
name_bound delete_command = omega arith
name_bound query_command = omega arith
name_bound snapshot_command = omega arith

with_name-AreWords :
    (c : Command) (ws : List (List ℕ)) → AreWords space ws → AreWords space (command_name c ∷ ws)
with_name-AreWords c [] h = (name-Lacks c, λ e. absurd (omega (arith, name_bound c, ap length e)))
with_name-AreWords c (w ∷ ws) h = (name-Lacks c, h)

with_name_bound : (c : Command) (ws : List (List ℕ)) → 0 < length (join space (command_name c ∷ ws))
with_name_bound c [] = name_bound c
with_name_bound c (w ∷ ws) =
    omega (arith, name_bound c, length-append (command_name c) (space ∷ join space (w ∷ ws)))

chosen_lem : (c : Command) (ws : List (List ℕ)) → chosen (command_name c ∷ ws) ≡ some (c, ws)
unfolding chosen divide
chosen_lem c ws = rw (get_command_processer_lem c, chosen) refl

-- What `prompt` makes of a line that is read
prompt_lem :
    (c : Command) (ws : List (List ℕ)) (chars rest text : List ℕ) (m m' : Mem) (b : ℕ)
    → read_input chars m b ≡ some (m', rest)
    → buffer_text m' b ≡ some text
    → split text space ≡ command_name c ∷ ws
    → prompt chars m b ≡ some (m', rest, some (c, ws))
unfolding prompt
prompt_lem c ws chars rest text m m' b reads there divided =
    rw (reads, there, divided, chosen_lem c ws, prompt) refl

-- A line without a zero, which without its backslashes has fewer than 512 characters, and which
-- with spaces for its tabs is the name of a command followed by words, with a space between each
-- two, the words themselves without one and the last not empty: prompt executes that command with
-- those words.
pub prompt-Chosen :
    (c : Command) (ws : List (List ℕ)) (line rest : List ℕ) (m : Mem) (b : ℕ)
    → AreWords space ws
    → IsLine line
    → map no_tab (kept line) ≡ join space (command_name c ∷ ws)
    → length (kept line) < cmd_buffer_size
    → (m' : Mem) × (prompt (line ++ new_line ∷ rest) m b ≡ some (m', rest, some (c, ws)))
prompt-Chosen c ws line rest m b words is_line e fits =
    let some_left : 0 < length (kept line) =
      omega (arith, length-map (kept line), ap length e, with_name_bound c ws) in
    let (m', reads, there) = read_input-Fills line rest m b is_line some_left fits in
    let text = map no_tab (kept line) in
    (
      m',
      prompt_lem c ws (line ++ new_line ∷ rest) rest text m m' b reads
          (IsBuffered-buffer_text m' b text there)
          (ap (λ t. split t space) e
            ∙ split-join space (command_name c ∷ ws) (with_name-AreWords c ws words)),
    )
