-- ===== src/ClusterShell/Node/Remote.antt =====
-- ClusterShell/clustershell_client.c and ClusterShell/clustershell_server.c: a command for another
-- node, from the console of a client over the server to the node.
use network_programming_c.Prelude.{
  ℕ, suc, ◌+◌, ◌-◌, ◌<◌, ◌≡◌, ◌≢◌, refl, subst, true, false, some, List, [], ◌∷◌, ◌++◌, length,
  get_or, ltb, leb, ◌==◌, str_eq, codes, arith, All, has_prefix, c_string-append,
}
use network_programming_c.MyShell.Lines.{newline}
use network_programming_c.MyShell.Args.{get_argument_length}
use network_programming_c.MyShell.Args.Words.{NoSpace, line, IsWord, words, strings_fit-line}
use network_programming_c.MyShell.Prompt.Plain.{cut_newline-end, bytes-not_newline, bytes-not_zero}
use network_programming_c.MyShell.Pipes.{Word, Filter, no_commands, all_fit}
use network_programming_c.MyShell.Builtin.{not_builtin, builtin}
use network_programming_c.ClusterShell.Relay.{Server, Thread, receives}
use network_programming_c.ClusterShell.Relay
use network_programming_c.ClusterShell.Relay.Replies.{IsRequest, Fits, IsAnswer, request-answer}
use network_programming_c.ClusterShell.Node.{
  Repl, launches, colon, send_size, for_node, console, repl, hears, split_args, init_args,
  pipe_from, run_pipeline, run_vector, run_builtin, launch,
}
use network_programming_c.ClusterShell.Node
use network_programming_c.ClusterShell.Node.Args.{split_args-line, length-split_args}

-- No flag is left from a line before.
abbrev pub idle : Repl
idle = record {
  is_background = false;
  ignore_path = false;
  bad_redirect_pipe = false;
  last_pipe = 0;
}

-- The line of a program: words with spaces between them, of which none is a `|` and the last is no
-- `&`, that are no command of the node itself. Each fits its string of the argument vector.
pub record IsProgram (usable : ℕ → ℕ) (home w : List ℕ) (r : List (ℕ × List ℕ)) : Type 0 where
  pub room : all_fit usable (w ∷ words r) ≡ true
  pub first_word : NoSpace w
  pub other_words : All IsWord r
  pub bytes : All (λ c. (c ≢ newline) × (c ≢ 0)) (line w r)
  pub no_exit : str_eq (line w r) (codes "exit") ≡ false
  pub own : builtin home (w ∷ words r) ≡ some not_builtin
  pub no_pipe : All (λ v. str_eq v (codes "|") ≡ false) (w ∷ words r)
  pub foreground : str_eq (get_or (w ∷ words r) (length (words r)) []) (codes "&") ≡ false

pipe_from-words :
    (args : List Word) (i : ℕ) (ws : List Word) (f : Filter)
    → All (λ v. str_eq v (codes "|") ≡ false) ws
    → pipe_from args i ws f ≡ some (record f { pipearg_count = f.pipearg_count + length ws })
unfolding pipe_from
pipe_from-words args i [] f a =
    let e : f.pipearg_count + 0 ≡ f.pipearg_count = omega arith in rw e refl
pipe_from-words args i (w ∷ ws) f a =
    let e : f.pipearg_count + suc (length ws) ≡ f.pipearg_count + 1 + length ws = omega arith in
    rw
      (
        a.0,
        pipe_from-words args (i + 1) ws (record f { pipearg_count = f.pipearg_count + 1 }) a.1,
        e,
      )
      refl

run_vector-program :
    (usable : ℕ → ℕ) (home w : List ℕ) (r : List (ℕ × List ℕ))
    → IsProgram usable home w r
    → run_vector idle (w ∷ words r) ≡ some (idle, launches false (w ∷ words r))
unfolding run_vector run_pipeline launch
run_vector-program usable home w r p =
    let m : suc (length (words r)) - 1 ≡ length (words r) = omega arith in
    rw (m, p.foreground, pipe_from-words (w ∷ words r) 0 (w ∷ words r) no_commands p.no_pipe) refl

repl-program :
    (usable : ℕ → ℕ) (home w : List ℕ) (r : List (ℕ × List ℕ))
    → IsProgram usable home w r
    → repl usable home idle (line w r ++ newline ∷ []) ≡ some (idle, launches false (w ∷ words r))
unfolding repl run_builtin init_args
repl-program usable home w r p =
    let f = strings_fit-line usable w r p.first_word p.other_words p.room in
    let i : split_args (line w r) ≡ w ∷ words r = split_args-line w r p.first_word p.other_words in
    let n : length (w ∷ words r) ≡ get_argument_length (line w r ++ newline ∷ []) =
      subst (λ v. length v ≡ get_argument_length (line w r ++ newline ∷ [])) i
        (length-split_args (line w r) (bytes-not_zero (line w r) p.bytes)) in
    let l : leb (length (w ∷ words r)) (get_argument_length (line w r ++ newline ∷ [])) ≡ true =
      ground (arith, n) in
    rw
      (cut_newline-end (line w r) (bytes-not_newline (line w r) p.bytes), p.no_exit, f, i, l, p.own)
      (run_vector-program usable home w r p)

-- The name of a node, and a line for it as it is typed.
abbrev pub node_name : ℕ → List ℕ
node_name d = b'n' ∷ d ∷ []

abbrev pub typed : ℕ → List ℕ → List (ℕ × List ℕ) → List ℕ
typed d w r = node_name d ++ b'.' ∷ (line w r ++ newline ∷ [])

console-typed :
    (usable : ℕ → ℕ) (home w : List ℕ) (rp : Repl) (r : List (ℕ × List ℕ)) (x d : ℕ)
    → d ≢ 0
    → length (x ∷ colon ∷ typed d w r) < send_size
    → console usable (x ∷ []) home rp (typed d w r)
      ≡ some (rp, Node.sends (x ∷ colon ∷ typed d w r))
unfolding console for_node has_prefix
console-typed usable home w rp r x d h k =
    let e : ltb (length (x ∷ colon ∷ typed d w r)) send_size ≡ true = ground arith in
    let z : (d == 0) ≡ false = ground arith in rw (e, z) refl

hears-program :
    (usable : ℕ → ℕ) (home w : List ℕ) (r : List (ℕ × List ℕ))
    → IsProgram usable home w r
    → All (λ c. c ≢ 0) (line w r ++ newline ∷ [])
    → hears usable home idle ((line w r ++ newline ∷ []) ++ 0 ∷ [])
      ≡ some (idle, launches false (w ∷ words r))
unfolding hears
hears-program usable home w r p z =
    rw (c_string-append (line w r ++ newline ∷ []) [] z) (repl-program usable home w r p)

-- A user types, at a client whose name has one byte, a program with its arguments for a node that
-- is connected, while the server waits for no answer and the message fits the buffers. Each word of
-- the program fits, with a zero behind it, the string of the node that it is copied to, which
-- `malloc` was asked one byte for. Then the
-- client sends a message and runs nothing itself, the server sends the line to exactly this node,
-- the node starts exactly this program with these arguments and is ready for the next line, and the
-- next answer that any client sends goes back to the client of the user, with the server as before.
pub remote-program :
    (usable : ℕ → ℕ) (home home' : List ℕ) (rp : Repl) (s : Server) (t u : Thread)
    (before behind : List (List ℕ)) (x d : ℕ) (w : List ℕ) (r : List (ℕ × List ℕ)) (answer : List ℕ)
    → IsRequest s before behind (node_name d) b'.' (line w r ++ newline ∷ [])
    → Fits (x ∷ colon ∷ typed d w r) t
    → length (x ∷ colon ∷ typed d w r) < send_size
    → IsProgram usable home' w r
    → IsAnswer answer u
    → (msg : List ℕ) × (order : List ℕ) × (s' : Server) × (t' : Thread) × (u' : Thread) × (console
          usable
          (x ∷ [])
          home
          rp
          (typed d w r)
        ≡ some (rp, Node.sends msg))
      × (receives s t msg
          ≡ some (s', t', Relay.sends (get_or s.client_fds (length before) 0) order ∷ []))
      × (hears usable home' idle order ≡ some (idle, launches false (w ∷ words r)))
      × (receives s' u answer ≡ some (s, u', Relay.sends t.sock answer ∷ []))
remote-program usable home home' rp s t u before behind x d w r answer q f k p a =
    let (s', t', u', e, g) =
      request-answer s t u before behind (node_name d) b'.' x colon (line w r ++ newline ∷ [])
        answer q f a in
    (
      x ∷ colon ∷ typed d w r,
      (line w r ++ newline ∷ []) ++ 0 ∷ [],
      s',
      t',
      u',
      console-typed usable home w rp r x d q.bytes.1.0 k,
      e,
      hears-program usable home' w r p q.bytes.1.1.1,
      g,
    )
