-- ===== src/MyShell/Lines/Buffer.antt =====
-- MyShell/shell.c: the buffer of `lineget`.
use network_programming_c.Prelude.{
  ℕ, ◌+◌, ◌-◌, ◌<◌, ◌≡◌, ◌≢◌, refl, sym, ap, ◌∙◌, Bool-cases, inl, inr, List, [], ◌∷◌, ◌++◌, length,
  length-append, append_assoc, append-nil, ◌==◌, arith, ==_iff, ◌⊎◌,
}
use network_programming_c.MyShell.Lines.{
  newline, cut_newline, Buffered, start_buffer, put_char, get_from, lineget,
}

-- What is in the buffer and what still fits are the whole of it, and something fits.
pub record IsBuffer (b : Buffered) : Type 0 where
  pub parts : length b.line + b.len ≡ b.lenmax
  pub room : 0 < b.len

put_char-IsBuffer : (b : Buffered) (c : ℕ) → IsBuffer b → IsBuffer (put_char b c)
unfolding put_char
put_char-IsBuffer b c v =
    let l = length-append b.line (c ∷ []) in
    elim (Bool-cases (b.len - 1 == 0)) [
      | inl e ↦
          let z : b.len ≡ 1 = ground (arith, v.room) in
          rw e (record { parts = omega (arith, l); room = omega arith })
      | inr e ↦
          let z : b.len ≢ 1 = ground arith in
          rw e (record { parts = omega (arith, l); room = omega arith })
    ]

put_char-line : (b : Buffered) (c : ℕ) → (put_char b c).line ≡ b.line ++ c ∷ []
unfolding put_char
put_char-line b c = ground arith

get_from-IsBuffer : (b : Buffered) (input : List ℕ) → IsBuffer b → IsBuffer (get_from b input).0
unfolding get_from
get_from-IsBuffer b [] v = v
get_from-IsBuffer b (c ∷ input) v = elim (Bool-cases (c == newline)) [
  | inl e ↦ rw e (put_char-IsBuffer b c v)
  | inr e ↦ rw e (get_from-IsBuffer (put_char b c) input (put_char-IsBuffer b c v))
]

-- The line is the input up to the first newline with it, or all of an input that has none.
abbrev pub IsLine : List ℕ → List ℕ → List ℕ → List ℕ → Type 0
IsLine before input line rest =
    ((line ≡ before ++ (cut_newline input ++ newline ∷ [])) × (line ++ rest ≡ before ++ input))
    ⊎ ((line ≡ before ++ cut_newline input) × (cut_newline input ≡ input) × (rest ≡ []))

get_from-IsLine :
    (b : Buffered) (input : List ℕ)
    → IsLine b.line input (get_from b input).0.line (get_from b input).1
unfolding get_from cut_newline
get_from-IsLine b [] = inr (sym (append-nil b.line), refl, refl)
get_from-IsLine b (c ∷ input) = elim (Bool-cases (c == newline)) [
  | inl e ↦
      let n : c ≡ newline = (==_iff c newline).0 e in
      let l : (put_char b c).line ≡ b.line ++ newline ∷ [] =
        put_char-line b c ∙ ap (λ x. b.line ++ x ∷ []) n in
      rw (e, l, n) (inl (refl, append_assoc b.line (newline ∷ []) input))
  | inr e ↦
      let a : (x : List ℕ) → (put_char b c).line ++ x ≡ b.line ++ c ∷ x =
        λ x. ap (λ y. y ++ x) (put_char-line b c) ∙ append_assoc b.line (c ∷ []) x in
      elim (get_from-IsLine (put_char b c) input) [
        | inl (p, q) ↦ rw e (inl (p ∙ a (cut_newline input ++ newline ∷ []), q ∙ a input))
        | inr (p, q, r) ↦ rw e (inr (p ∙ a (cut_newline input), ap (λ x. c ∷ x) q, r))
      ]
]

-- What `lineget` reads is the input up to the first newline with it, and the rest is left, or it is
-- the whole of an input with no newline. It is shorter than the buffer, so that the zero behind it
-- is written into the buffer.
pub lineget_lem :
    (input : List ℕ)
    → let (b, rest) = lineget input in IsLine [] input b.line rest × (length b.line < b.lenmax)
unfolding lineget
lineget_lem input =
    let v = get_from-IsBuffer start_buffer input (record { parts = refl; room = omega arith }) in
    (get_from-IsLine start_buffer input, omega (arith, v.parts, v.room))
