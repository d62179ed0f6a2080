-- ===== src/MyShell/Shared.antt =====
-- MyShell/shell.c: `popen_read`, `popen_write`, `shellMsgQ` and `shellShm`: the output of a
-- command is given to some other commands through a message, or through a memory segment. The
-- calls of the kernel that make and remove the queue and the segment succeed. The search of PATH
-- belongs to what a program does. The joined string `output_cmd` of `shellShm`, which nothing
-- reads, is not modelled.
pub mod Pieces
use network_programming_c.Prelude.{
  ℕ, zero, suc, ◌+◌, Bool, Option, none, some, ◌>>=◌, List, [], ◌∷◌, ltb, leb, length, take, drop,
  map, c_string, if◌then◌else◌,
}
use network_programming_c.MyShell.Pipes.{Word}

abbrev pub Content : Type 0
Content = List ℕ

-- `sizeof(buffer)-1`.
abbrev pub piece_size : ℕ
piece_size = 8191

-- The `fread` loop, with the string that the buffer holds; before the first piece it holds none.
-- Each piece is ended with a zero and overwrites the one before it.
unfoldable pub read_pieces : ℕ → ℕ → Option Content → Content → Option Content
read_pieces size zero buffer rest = buffer
read_pieces size (suc fuel) buffer [] = buffer
read_pieces size (suc fuel) buffer (b ∷ bs) =
    read_pieces size fuel (some (c_string (take size (b ∷ bs)))) (drop size (b ∷ bs))

-- What `popen_read` and the loop leave in the buffer, for the output of the command.
unfoldable pub read_output : Content → Option Content
unfolding read_pieces
read_output out = read_pieces piece_size (length out) none out

-- What becomes of the line: the commands that are started, each with its input. A buffer that was
-- never written has no text, and a string behind the end of the segment is not a write either.
-- Where `msgrcv` fails, the shell prints the error and goes back to its prompt.
pub data Shared : Type 0 where
  no_text : Shared
  waits : Shared
  receives_nothing : Shared
  overruns : Shared
  starts : List (List Word × Content) → Shared

-- The loop over the commands, with `popen_write` and `fputs`. They are not waited for.
unfoldable pub give : Content → List (List Word) → Shared
give text rows = starts (map (λ row. (row, text)) rows)

-- The bytes that `msgrcv` is asked for: it fails for a message of more.
abbrev pub receive_size : ℕ
receive_size = 8192

-- `sizeof(long) + strlen(message.mtext) + 1` bytes are sent, of which the system takes `max`. When
-- it refuses them, the shell waits for a message that does not come.
unfoldable pub send_message : ℕ → List (List Word) → Option Content → Shared
unfolding give
send_message max rows none = no_text
send_message max rows (some text) =
    if leb (length text + 9) max
    then (if leb (length text + 9) receive_size then give text rows else receives_nothing)
    else waits

unfoldable pub shell_msg_q : ℕ → Content → List (List Word) → Shared
unfolding read_output send_message
shell_msg_q max out rows = send_message max rows (read_output out)

abbrev pub segment_size : ℕ
segment_size = 4096

unfoldable pub copy_to_segment : List (List Word) → Option Content → Shared
unfolding give
copy_to_segment rows none = no_text
copy_to_segment rows (some text) =
    if ltb (length text) segment_size then give text rows else overruns

unfoldable pub shell_shm : Content → List (List Word) → Shared
unfolding read_output copy_to_segment
shell_shm out rows = copy_to_segment rows (read_output out)
