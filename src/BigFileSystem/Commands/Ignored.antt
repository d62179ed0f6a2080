-- ===== src/BigFileSystem/Commands/Ignored.antt =====
-- BigFileSystem/dataserver.c: a message in the form that a client sends, with a name of one byte.
use network_programming_c.Prelude.{
  ℕ, ◌+◌, ◌≤◌, ◌<◌, ◌≡◌, refl, true, none, some, ◌>>=◌, List, [], ◌∷◌, ◌++◌, length, ltb,
  if◌then◌else◌, ◌==◌, arith, str_eq, Yields, bind-Yields, Yields-weaken, Yields-result, Bool-cases,
  inl, inr, length-append,
}
use network_programming_c.MyShell.Args.{space}
use network_programming_c.BigFileSystem.Commands.{
  op_rows, Tokens, end_token, token_step, tokens_from, split_string, colon, answers, echo,
  server_op, server_tok_size, server_tokens, data_server_message,
}

-- The first of the words begins with a colon.
abbrev Marked : List (List ℕ) → Type 0
Marked [] = ⊥
Marked ([] ∷ op) = ⊥
Marked ((b ∷ w) ∷ op) = b ≡ colon

-- The words so far, the one that is read included.
abbrev Reads : Tokens → Type 0
Reads (op, current) = Marked (op ++ current ∷ [])

Reads-byte :
    (op : List (List ℕ)) (current : List ℕ) (c : ℕ)
    → Reads (op, current)
    → Reads (op, current ++ c ∷ [])
Reads-byte [] [] c m = absurd m
Reads-byte [] (b ∷ current) c m = m
Reads-byte ([] ∷ op) current c m = absurd m
Reads-byte ((b ∷ w) ∷ op) current c m = m

-- All that is read fits.
abbrev Ended : ℕ → List (List ℕ) → Type 0
Ended n op = Marked op × (length op ≤ n)

end_token-Ended :
    (op : List (List ℕ)) (current : List ℕ)
    → Reads (op, current)
    → length op + length current < op_rows
    → Yields (Ended (length op + length current)) (end_token op current)
unfolding end_token
end_token-Ended [] [] m h = absurd m
end_token-Ended ([] ∷ op) [] m h = absurd m
end_token-Ended ((b ∷ w) ∷ op) [] m h = (m, omega arith)
end_token-Ended op (c ∷ current) m h =
    let e : ltb (length op) op_rows ≡ true = ground arith in
    let f : ltb (length (c ∷ current)) op_rows ≡ true = ground arith in
    rw (e, f) (m, omega (arith, length-append op ((c ∷ current) ∷ [])))

abbrev Reading : ℕ → Tokens → Type 0
Reading n (op, current) = Reads (op, current) × (length op + length current ≤ n)

Reads-next : (op : List (List ℕ)) → Marked op → Reads (op, [])
Reads-next [] m = absurd m
Reads-next ([] ∷ op) m = absurd m
Reads-next ((b ∷ w) ∷ op) m = m

abbrev Divided : List (List ℕ) → Type 0
Divided op = Marked op × (length op < op_rows)

tokens_from-Divided :
    (op : List (List ℕ)) (current s : List ℕ)
    → Reads (op, current)
    → length op + length current + length s < op_rows
    → Yields Divided (tokens_from (op, current) s)
unfolding tokens_from token_step
tokens_from-Divided op current [] m h =
    Yields-weaken (Ended (length op + length current)) Divided (end_token op current)
      (λ op' (k, l). (k, omega arith)) (end_token-Ended op current m (omega arith))
tokens_from-Divided op current (c ∷ s) m h = elim (Bool-cases (c == space)) [
  | inr e ↦ rw e (
      tokens_from-Divided op (current ++ c ∷ []) s (Reads-byte op current c m)
        (omega (arith, length-append current (c ∷ []))))
  | inl e ↦ rw e (
      bind-Yields (Reading (length op + length current)) Divided
        (end_token op current >>= λ op'. some (op', [])) (λ t. tokens_from t s)
        (bind-Yields (Ended (length op + length current)) (Reading (length op + length current))
          (end_token op current) (λ op'. some (op', []))
          (end_token-Ended op current m (omega arith))
          (λ op' (k, l). (Reads-next op' k, omega arith)))
        (λ (op', current') (k, l). tokens_from-Divided op' current' s k (omega arith)))
]

split_string-Marked :
    (s : List ℕ) → length (colon ∷ s) < op_rows → Yields Marked (split_string (colon ∷ s))
unfolding split_string tokens_from token_step
split_string-Marked s h =
    bind-Yields Divided Marked (tokens_from ([], colon ∷ []) s)
      (λ op. if ltb (length op) op_rows then some op else none)
      (tokens_from-Divided [] (colon ∷ []) s refl (omega arith))
      (λ op (m, l). let e : ltb (length op) op_rows ≡ true = ground arith in rw e m)

server_op-Marked :
    (buf : List ℕ) (op : List (List ℕ)) → Marked op → server_op buf op ≡ some (echo buf)
unfolding server_op str_eq
server_op-Marked buf [] m = absurd m
server_op-Marked buf ([] ∷ op) m = absurd m
server_op-Marked buf ((b ∷ w) ∷ op) m = rw m refl

-- A message of a client whose name has one byte, with fewer than 100 bytes behind the name,
-- whatever command is in it: the data server does not go to its file tree, and sends the message
-- back from its colon on.
pub data_server_message-ignored :
    (b : ℕ) (s : List ℕ)
    → length (colon ∷ s) < op_rows
    → data_server_message (b ∷ colon ∷ s) ≡ some (answers (colon ∷ s ++ 0 ∷ []))
unfolding data_server_message server_tokens
data_server_message-ignored b s h =
    let e : ltb (length (colon ∷ s)) server_tok_size ≡ true = ground arith in
    let (op, f, m) = Yields-result Marked (split_string (colon ∷ s)) (split_string-Marked s h) in
    rw (e, f) (server_op-Marked (b ∷ colon ∷ s) op m)
