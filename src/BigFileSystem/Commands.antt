-- ===== src/BigFileSystem/Commands.antt =====
-- BigFileSystem/client.c, filenameserver.c and dataserver.c: `split_string`, and what the three
-- programs do with a line, and with the first message of a new client: only that is taken for a
-- command. A message is shorter than the buffer it is received in.
pub mod Tokens
pub mod Ignored
pub mod Copies
use network_programming_c.Prelude.{
  ℕ, ◌+◌, Bool, true, false, ◌&&◌, Option, none, some, ◌>>=◌, List, [], ◌∷◌, ◌++◌, length, drop,
  ltb, ◌==◌, if◌then◌else◌, str_eq, has_prefix, codes,
}
use network_programming_c.MyShell.Args.{space, is_empty}
use network_programming_c.BigFileSystem.Tree.{root_node, insert_node}

-- The pointers of `op`, and the bytes that each has.
abbrev pub op_rows : ℕ
op_rows = 100

-- The tokens that are copied to `op`, and what has been read of the next.
abbrev pub Tokens : Type 0
Tokens = List (List ℕ) × List ℕ

-- The end of a token, where there is one. `none` is a write behind `op` or one of its rows.
unfoldable pub end_token : List (List ℕ) → List ℕ → Option (List (List ℕ))
end_token op current =
    if is_empty current
    then some op
    else (if ltb (length op) op_rows && ltb (length current) op_rows
        then some (op ++ current ∷ [])
        else none)

unfoldable pub token_step : Tokens → ℕ → Option Tokens
token_step (op, current) c =
    if c == space
    then (end_token op current >>= λ op'. some (op', []))
    else some (op, current ++ c ∷ [])

-- `strtok` with the delimiter " ", from the byte at the front on.
unfoldable pub tokens_from : Tokens → List ℕ → Option (List (List ℕ))
unfolding token_step
tokens_from (op, current) [] = end_token op current
tokens_from t (c ∷ s) = token_step t c >>= λ t'. tokens_from t' s

-- The NULL goes behind the tokens.
unfoldable pub split_string : List ℕ → Option (List (List ℕ))
split_string msg_tok =
    tokens_from ([], []) msg_tok >>= λ op. if ltb (length op) op_rows then some op else none

abbrev pub colon : ℕ
colon = b':'

-- What the client does with a line. Where it copies, the threads of `send_files` have ended when
-- it sends the line; what they write, while they share the file and its position, is not modelled.
pub data Client : Type 0 where
  ends : Client
  no_file : Client
  asks_format : Client
  sends : List ℕ → Client
  copies_and_sends : List ℕ → List ℕ → Client

-- `none` is a write behind `send_msg`.
abbrev pub msg_size : ℕ
msg_size = 8192

unfoldable pub framed : List ℕ → List ℕ → (List ℕ → Client) → Option Client
framed client_name msg k =
    if ltb (length (client_name ++ colon ∷ msg)) msg_size
    then some (k (client_name ++ colon ∷ msg))
    else none

unfoldable pub client_cp : (List ℕ → Bool) → List ℕ → List ℕ → List (List ℕ) → Option Client
client_cp opens client_name msg (src ∷ dst ∷ op) =
    if opens src then framed client_name msg (copies_and_sends src) else some no_file
client_cp opens client_name msg op = some asks_format

unfoldable pub client_cat : List ℕ → List ℕ → List (List ℕ) → Option Client
client_cat client_name msg (file ∷ op) = framed client_name msg sends
client_cat client_name msg [] = some asks_format

-- The line by its tokens.
unfoldable pub client_op : (List ℕ → Bool) → List ℕ → List ℕ → List (List ℕ) → Option Client
unfolding client_cp client_cat
client_op opens client_name msg [] = framed client_name msg sends
client_op opens client_name msg (a ∷ op) =
    if str_eq a (codes "cp")
    then client_cp opens client_name msg op
    else (if str_eq a (codes "cat")
        then client_cat client_name msg op
        else framed client_name msg sends)

-- `msg_tok` of the client.
abbrev pub client_tok_size : ℕ
client_tok_size = 256

-- The loop of `main` on a line; `opens` says which files `open` finds.
unfoldable pub client_line : (List ℕ → Bool) → List ℕ → List ℕ → Option Client
unfolding client_op
client_line opens client_name msg =
    if has_prefix (codes "exit") msg
    then some ends
    else (if ltb (length msg) client_tok_size
        then (split_string msg >>= λ op. client_op opens client_name msg op)
        else none)

-- What a server answers.
pub data Answer : Type 0 where
  format : Answer
  answers : List ℕ → Answer

-- As many bytes as the message has, from its second on: the last is the zero behind it.
abbrev pub echo : List ℕ → Answer
echo [] = answers []
echo (c ∷ buf) = answers (buf ++ 0 ∷ [])

unfoldable pub server_cp : List ℕ → List (List ℕ) → Option Answer
unfolding insert_node
server_cp buf (src ∷ dst ∷ []) = insert_node root_node dst true >>= λ inserted. some (echo buf)
server_cp buf op = some format

unfoldable pub server_cat : List (List ℕ) → Answer
server_cat (file ∷ op) = answers file
server_cat [] = format

-- The message by its tokens; the two servers do the same. The loop over the blocks of the data
-- server has an empty body.
unfoldable pub server_op : List ℕ → List (List ℕ) → Option Answer
unfolding server_cp server_cat
server_op buf [] = some (echo buf)
server_op buf (a ∷ op) =
    if str_eq a (codes "cp")
    then server_cp buf op
    else (if str_eq a (codes "cat") then some (server_cat op) else some (echo buf))

-- `msg_tok` of the servers.
abbrev pub server_tok_size : ℕ
server_tok_size = 1024

unfoldable pub server_tokens : List ℕ → List ℕ → Option Answer
unfolding server_op
server_tokens buf msg_tok =
    if ltb (length msg_tok) server_tok_size
    then (split_string msg_tok >>= λ op. server_op buf op)
    else none

-- What stands behind the first colon.
unfoldable pub behind_colon : List ℕ → List ℕ
behind_colon [] = []
behind_colon (c ∷ s) = let rest = behind_colon s in if c == colon then s else rest

unfoldable pub name_server_message : List ℕ → Option Answer
unfolding server_tokens
name_server_message buf = server_tokens buf (behind_colon buf)

unfoldable pub data_server_message : List ℕ → Option Answer
unfolding server_tokens
data_server_message buf = server_tokens buf (drop 1 buf)
