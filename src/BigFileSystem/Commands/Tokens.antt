-- ===== src/BigFileSystem/Commands/Tokens.antt =====
-- BigFileSystem/client.c, filenameserver.c and dataserver.c: lines put together from words, and
-- `split_string` on them.
use network_programming_c.Prelude.{
  ℕ, zero, suc, ◌+◌, ◌<◌, ◌≡◌, ◌≢◌, refl, subst, ap, ◌∙◌, true, some, List, [], ◌∷◌, ◌++◌,
  append-nil, append_assoc, length, length-append, ltb, arith, All, replicate,
}
use network_programming_c.MyShell.Args.{space}
use network_programming_c.MyShell.Args.Words.{NoSpace, line, IsWord, words}
use network_programming_c.BigFileSystem.Commands.{
  op_rows, end_token, token_step, tokens_from, split_string,
}

-- A word that fits a row.
abbrev pub Fits : List ℕ → Type 0
Fits w = length w < op_rows

tokens_from-word :
    (op : List (List ℕ)) (current w s : List ℕ)
    → NoSpace w
    → tokens_from (op, current) (w ++ s) ≡ tokens_from (op, current ++ w) s
unfolding tokens_from token_step
tokens_from-word op current [] s a = rw (append-nil current) refl
tokens_from-word op current (c ∷ w) s a =
    rw (a.0, tokens_from-word op (current ++ c ∷ []) w s a.1, append_assoc current (c ∷ []) w) refl

tokens_from-spaces :
    (op : List (List ℕ)) (k : ℕ) (s : List ℕ)
    → tokens_from (op, []) (replicate k space ++ s) ≡ tokens_from (op, []) s
unfolding tokens_from token_step end_token
tokens_from-spaces op zero s = refl
tokens_from-spaces op (suc k) s = tokens_from-spaces op k s

end_token-word :
    (op : List (List ℕ)) (w : List ℕ)
    → w ≢ []
    → Fits w
    → length op < op_rows
    → end_token op w ≡ some (op ++ w ∷ [])
unfolding end_token
end_token-word op [] h f l = absurd (h refl)
end_token-word op (c ∷ w) h f l =
    let e : ltb (length op) op_rows ≡ true = ground arith in
    let g : ltb (length (c ∷ w)) op_rows ≡ true = ground arith in rw (e, g) refl

tokens_from-last :
    (op : List (List ℕ)) (w : List ℕ) → NoSpace w → tokens_from (op, []) w ≡ end_token op w
unfolding tokens_from
tokens_from-last op w a =
    subst (λ s. tokens_from (op, []) s ≡ end_token op w) (append-nil w)
      (tokens_from-word op [] w [] a)

tokens_from-separated :
    (op : List (List ℕ)) (w : List ℕ) (k : ℕ) (s : List ℕ)
    → NoSpace w
    → end_token op w ≡ some (op ++ w ∷ [])
    → tokens_from (op, []) (w ++ (replicate (suc k) space ++ s)) ≡ tokens_from (op ++ w ∷ [], []) s
unfolding tokens_from token_step
tokens_from-separated op w k s a e =
    rw (tokens_from-word op [] w (replicate (suc k) space ++ s) a, tokens_from, e)
      (tokens_from-spaces (op ++ w ∷ []) k s)

tokens_from-line :
    (op : List (List ℕ)) (w : List ℕ) (r : List (ℕ × List ℕ))
    → length op + length r < op_rows
    → NoSpace w
    → w ≢ []
    → All IsWord r
    → All Fits (w ∷ words r)
    → tokens_from (op, []) (line w r) ≡ some (op ++ w ∷ words r)
tokens_from-line op w [] l a h b f =
    tokens_from-last op w a ∙ end_token-word op w h f.0 (omega arith)
tokens_from-line op w ((k, v) ∷ r) l a h b f =
    let n : length (op ++ w ∷ []) + length r < op_rows = omega (arith, length-append op (w ∷ [])) in
    tokens_from-separated op w k (line v r) a (end_token-word op w h f.0 (omega arith))
    ∙ (tokens_from-line (op ++ w ∷ []) v r n b.0.0 b.0.1 b.1 f.1
        ∙ ap some (append_assoc op (w ∷ []) (v ∷ words r)))

length-words : (r : List (ℕ × List ℕ)) → length (words r) ≡ length r
length-words [] = refl
length-words ((k, v) ∷ r) = ap suc (length-words r)

-- A line of fewer than 100 words of fewer than 100 bytes, with spaces between them and none at its
-- ends, is split into these words.
pub split_string-line :
    (w : List ℕ) (r : List (ℕ × List ℕ))
    → suc (length r) < op_rows
    → NoSpace w
    → w ≢ []
    → All IsWord r
    → All Fits (w ∷ words r)
    → split_string (line w r) ≡ some (w ∷ words r)
unfolding split_string
split_string-line w r l a h b f =
    let e : ltb (length (w ∷ words r)) op_rows ≡ true = ground (arith, length-words r) in
    rw (tokens_from-line [] w r (omega arith) a h b f, e) refl
