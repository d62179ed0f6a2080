-- ===== src/Sniffer/Dump/Bytes.antt =====
-- Sniffer/read_messages.c: the loop of `print_data` inside of a row.
use network_programming_c.Prelude.{
  ℕ, suc, ◌+◌, ◌-◌, ◌%◌, ◌<◌, ◌≤◌, ◌≡◌, ◌≢◌, refl, sym, ap, ◌∙◌, true, false, ◌&&◌, not, List, [],
  ◌∷◌, ◌++◌, map, length, length-append, get_or, append-nil, append_assoc, ◌==◌, arith, Bool-cases,
  inl, inr,
}
use network_programming_c.Sniffer.{hex, margin, row_size, print_byte, print_from}
use network_programming_c.Sniffer.Dump.{row_before, row_end}

pub byte_inside :
    (bytes : List ℕ) (size i : ℕ)
    → i % row_size ≢ 0
    → i + 1 < size
    → print_byte bytes size i ≡ hex (get_or bytes i 0) ∷ []
unfolding print_byte
byte_inside bytes size i h k =
    let a : (not (i == 0) && i % row_size == 0) ≡ false = ground arith in
    let b : (i % row_size == 0) ≡ false = ground arith in
    let c : (i == size - 1) ≡ false = ground arith in rw (a, b, c) refl

pub byte_first :
    (bytes : List ℕ) (size i : ℕ)
    → i % row_size ≡ 0
    → i + 1 < size
    → print_byte bytes size i ≡ row_before bytes i ++ (margin ∷ hex (get_or bytes i 0) ∷ [])
unfolding print_byte row_before
byte_first bytes size i h k =
    let c : (i == size - 1) ≡ false = ground arith in
    elim (Bool-cases (i == 0)) [ inl e ↦ rw (h, c, e) refl | inr e ↦ rw (h, c, e) refl ]

pub byte_last :
    (bytes : List ℕ) (size q j : ℕ)
    → q % row_size ≡ 0
    → 1 ≤ j
    → j < row_size
    → q + j + 1 ≡ size
    → print_byte bytes size (q + j) ≡ hex (get_or bytes (q + j) 0) ∷ row_end bytes q (j + 1)
unfolding print_byte row_end
byte_last bytes size q j h o k l =
    let m : (q + j) % row_size ≡ j = omega arith in
    let c : (q + j == size - 1) ≡ true = ground arith in
    let z : (q + j == 0) ≡ false = ground arith in
    let s : q + j - j ≡ q = omega arith in
    let d : row_size - 1 - j ≡ row_size - (j + 1) = omega arith in
    let y : (j == 0) ≡ false = ground arith in rw (c, z, m, y, s, d) refl

pub byte_only :
    (bytes : List ℕ) (q : ℕ)
    → q % row_size ≡ 0
    → print_byte bytes (q + 1) q
      ≡ row_before bytes q ++ (margin ∷ hex (get_or bytes q 0) ∷ row_end bytes q 1)
unfolding print_byte row_before row_end
byte_only bytes q h =
    let c : (q == q + 1 - 1) ≡ true = ground arith in
    let s : q - 0 ≡ q = omega arith in
    elim (Bool-cases (q == 0)) [ inl e ↦ rw (h, c, s, e) refl | inr e ↦ rw (h, c, s, e) refl ]

pub get_or-middle : (pre s : List ℕ) (x : ℕ) → get_or (pre ++ x ∷ s) (length pre) 0 ≡ x
get_or-middle [] s x = refl
get_or-middle (y ∷ pre) s x = get_or-middle pre s x

pub get_or-at : (pre s : List ℕ) (x i : ℕ) → length pre ≡ i → get_or (pre ++ x ∷ s) i 0 ≡ x
get_or-at pre s x i e = rw (sym e) (get_or-middle pre s x)

-- The bytes of a row that starts at `q`, from the one at `q + j` on, with those before it.
abbrev pub Inside : List ℕ → List ℕ → List ℕ → List ℕ → ℕ → ℕ → Type 0
Inside bytes pre s post q j =
    (bytes ≡ pre ++ (s ++ post))
    × (length pre ≡ q + j)
    × (q % row_size ≡ 0)
    × (1 ≤ j)
    × (j + length s ≤ row_size)

pub Inside-next :
    (bytes pre s post : List ℕ) (x q j : ℕ)
    → Inside bytes pre (x ∷ s) post q j
    → Inside bytes (pre ++ x ∷ []) s post q (j + 1)
Inside-next bytes pre s post x q j (e, l, h, o, k) = (
  e ∙ sym (append_assoc pre (x ∷ []) (s ++ post)),
  omega (arith, length-append pre (x ∷ [])),
  h,
  omega arith,
  omega arith,
)

pub Inside-byte :
    (bytes pre s post : List ℕ) (x q j : ℕ)
    → Inside bytes pre (x ∷ s) post q j
    → get_or bytes (q + j) 0 ≡ x
Inside-byte bytes pre s post x q j (e, l, h, o, k) = rw e (get_or-at pre (s ++ post) x (q + j) l)

-- When more rows come behind them.
pub bytes-Inside :
    (bytes pre s post : List ℕ) (size q j n : ℕ)
    → Inside bytes pre s post q j
    → q + j + length s < size
    → print_from (length s + n) bytes size (q + j)
      ≡ map hex s ++ print_from n bytes size (q + j + length s)
unfolding print_from
bytes-Inside bytes pre [] post size q j n v m =
    let z : q + j + 0 ≡ q + j = omega arith in let y : 0 + n ≡ n = omega arith in rw (z, y) refl
bytes-Inside bytes pre (x ∷ s) post size q j n v m =
    let z : q + j + suc (length s) ≡ q + (j + 1) + length s = omega arith in
    let y : suc (length s) + n ≡ suc (length s + n) = omega arith in
    let t : q + j + 1 ≡ q + (j + 1) = omega arith in
    rw
      (
        y,
        print_from,
        byte_inside bytes size (q + j) (omega (arith, v)) (omega arith),
        Inside-byte bytes pre s post x q j v,
        z,
        t,
      )
      (ap (λ l. hex x ∷ l)
        (bytes-Inside bytes (pre ++ x ∷ []) s post size q (j + 1) n
          (Inside-next bytes pre s post x q j v) (omega arith)))

-- When they are the last.
pub bytes-Inside_end :
    (bytes pre s post : List ℕ) (size q j x : ℕ)
    → Inside bytes pre (x ∷ s) post q j
    → q + j + suc (length s) ≡ size
    → print_from (suc (length s)) bytes size (q + j)
      ≡ map hex (x ∷ s) ++ row_end bytes q (j + suc (length s))
unfolding print_from
bytes-Inside_end bytes pre [] post size q j x v m =
    rw
      (
        byte_last bytes size q j (omega (arith, v)) (omega (arith, v)) (omega (arith, v)) m,
        Inside-byte bytes pre [] post x q j v,
        append-nil (row_end bytes q (j + 1)),
      )
      refl
bytes-Inside_end bytes pre (y ∷ s) post size q j x v m =
    let t : q + j + 1 ≡ q + (j + 1) = omega arith in
    let u : j + suc (suc (length s)) ≡ j + 1 + suc (length s) = omega arith in
    rw
      (
        byte_inside bytes size (q + j) (omega (arith, v)) (omega arith),
        Inside-byte bytes pre (y ∷ s) post x q j v,
        t,
        u,
      )
      (ap (λ l. hex x ∷ l)
        (bytes-Inside_end bytes (pre ++ x ∷ []) s post size q (j + 1) y
          (Inside-next bytes pre (y ∷ s) post x q j v) (omega arith)))
