-- ===== src/MyShell/Shared/Pieces.antt =====
-- What reaches the commands of `shellMsgQ` and `shellShm`: the last piece of the output.
use network_programming_c.Prelude.{
  ℕ, zero, suc, ◌+◌, ◌*◌, ◌<◌, ◌≤◌, ◌≡◌, ◌≢◌, refl, ap, ◌∙◌, Option, none, some, List, [], ◌∷◌,
  ◌++◌, length, take, drop, ltb, leb, if◌then◌else◌, c_string, arith, take_all, drop_all, true,
  false, length-drop, length-append, All, map,
}
use network_programming_c.MyShell.Pipes.{Word}
use network_programming_c.MyShell.Shared.{
  Content, piece_size, segment_size, receive_size, read_pieces, read_output, starts, waits,
  receives_nothing, overruns, give, send_message, shell_msg_q, copy_to_segment, shell_shm,
}

read_pieces-nil : (size fuel : ℕ) (b : Option Content) → read_pieces size fuel b [] ≡ b
unfolding read_pieces
read_pieces-nil size zero b = refl
read_pieces-nil size (suc fuel) b = refl

read_pieces-step :
    (size fuel : ℕ) (b : Option Content) (zs : Content)
    → 0 < length zs
    → read_pieces size (suc fuel) b zs
      ≡ read_pieces size fuel (some (c_string (take size zs))) (drop size zs)
unfolding read_pieces
read_pieces-step size fuel b [] h = absurd (omega (arith, h))
read_pieces-step size fuel b (z ∷ zs) h = refl

drop_within : (n : ℕ) (xs ys : Content) → n ≤ length xs → drop n (xs ++ ys) ≡ drop n xs ++ ys
drop_within zero xs ys h = refl
drop_within (suc n) [] ys h = absurd (omega arith)
drop_within (suc n) (x ∷ xs) ys h = drop_within n xs ys (omega arith)

-- Enough fuel: one step for each piece, and the last piece is what is left.
read_pieces-last :
    (size k fuel : ℕ) (b : Option Content) (xs ys : Content)
    → length xs ≡ k * size
    → 0 < length ys
    → length ys ≤ size
    → k < fuel
    → read_pieces size fuel b (xs ++ ys) ≡ some (c_string ys)
read_pieces-last size k zero b xs ys e p l f = absurd (omega arith)
read_pieces-last size zero (suc fuel) b [] ys e p l f =
    read_pieces-step size fuel b ys p
    ∙ rw (take_all size ys l, drop_all size ys l) (read_pieces-nil size fuel (some (c_string ys)))
read_pieces-last size zero (suc fuel) b (x ∷ xs) ys e p l f =
    absurd (let z : 0 * size ≡ 0 = omega arith in omega (arith, e, z))
read_pieces-last size (suc k) (suc fuel) b xs ys e p l f =
    let g : suc k * size ≡ k * size + size = omega arith in
    let n : length (drop size xs) ≡ k * size = omega (arith, length-drop size xs, e, g) in
    let c : size ≤ length xs = omega (arith, e, g) in
    read_pieces-step size fuel b (xs ++ ys) (omega (arith, length-append xs ys))
    ∙ rw (drop_within size xs ys c) (
        read_pieces-last size k fuel (some (c_string (take size (xs ++ ys)))) (drop size xs) ys n p
          l (omega arith))

-- A string without a zero is read to its end.
c_string-whole : (s : Content) → All (λ c. c ≢ 0) s → c_string s ≡ s
c_string-whole [] a = refl
c_string-whole (c ∷ s) a = ground (arith, c_string-whole s a.1)

many :
    (k : ℕ) (xs ys : Content) → length xs ≡ k * piece_size → 0 < length ys → k < length (xs ++ ys)
many k xs ys e p =
    let g : k * piece_size ≡ k * 8191 = refl in omega (arith, length-append xs ys, e, g)

read_output-last :
    (k : ℕ) (xs ys : Content)
    → length xs ≡ k * piece_size
    → 0 < length ys
    → length ys ≤ piece_size
    → All (λ c. c ≢ 0) ys
    → read_output (xs ++ ys) ≡ some ys
unfolding read_output
read_output-last k xs ys e p l a =
    read_pieces-last piece_size k (length (xs ++ ys)) none xs ys e p l (many k xs ys e p)
    ∙ ap some (c_string-whole ys a)

-- The output of a command, read in pieces of 8191 bytes, ends with a piece that has no zero byte,
-- and the system takes a message of its length. If the piece has at most 8183 bytes, each command
-- behind `##` is started once, in their order, with this last piece as its input, and nothing of
-- the pieces before it; it is the whole output when there is one piece. If it is longer, the shell
-- sends it but fails to receive it, and no command is started.
pub shell_msg_q-last_piece :
    (max k : ℕ) (xs ys : Content) (rows : List (List Word))
    → length xs ≡ k * piece_size
    → 0 < length ys
    → length ys ≤ piece_size
    → All (λ c. c ≢ 0) ys
    → length ys + 9 ≤ max
    → shell_msg_q max (xs ++ ys) rows
      ≡ (if leb (length ys) 8183 then starts (map (λ row. (row, ys)) rows) else receives_nothing)
unfolding shell_msg_q send_message give
shell_msg_q-last_piece max k xs ys rows e p l a m =
    let t : leb (length ys + 9) max ≡ true = ground arith in
    let r : leb (length ys + 9) receive_size ≡ leb (length ys) 8183 = ground arith in
    rw (read_output-last k xs ys e p l a, t, r) refl

-- A longer last piece is refused by the system, and the shell waits for ever.
pub shell_msg_q-refused :
    (max k : ℕ) (xs ys : Content) (rows : List (List Word))
    → length xs ≡ k * piece_size
    → 0 < length ys
    → length ys ≤ piece_size
    → All (λ c. c ≢ 0) ys
    → max < length ys + 9
    → shell_msg_q max (xs ++ ys) rows ≡ waits
unfolding shell_msg_q send_message
shell_msg_q-refused max k xs ys rows e p l a m =
    let t : leb (length ys + 9) max ≡ false = ground arith in
    rw (read_output-last k xs ys e p l a, t) refl

-- An output that is longer than the segment, and is one piece, is written behind its end.
pub shell_shm-overruns :
    (out : Content) (rows : List (List Word))
    → segment_size ≤ length out
    → length out ≤ piece_size
    → All (λ c. c ≢ 0) out
    → shell_shm out rows ≡ overruns
unfolding shell_shm copy_to_segment
shell_shm-overruns out rows p l a =
    let u : ltb (length out) segment_size ≡ false = ground arith in
    let e : read_output out ≡ some out = read_output-last 0 [] out refl (omega arith) l a in
    rw (e, u) refl
