-- ===== src/Sniffer/Dump/Rows.antt =====
-- Sniffer/read_messages.c: the loop of `print_data` on a row.
use network_programming_c.Prelude.{
  ℕ, suc, ◌+◌, ◌-◌, ◌%◌, ◌<◌, ◌≤◌, ◌≡◌, refl, sym, subst, ◌∙◌, false, List, [], ◌∷◌, ◌++◌, map,
  length, length-append, get_or, append-nil, take-append, drop-append, append_assoc, ◌==◌, arith,
}
use network_programming_c.Sniffer.{hex, margin, row_size, slice, text_of, print_from}
use network_programming_c.Sniffer.Dump.{row_before, row_end}
use network_programming_c.Sniffer.Dump.Bytes.{
  byte_first, byte_only, get_or-at, Inside, bytes-Inside, bytes-Inside_end,
}

-- A row that starts at `q`, with those before it.
abbrev pub Row : List ℕ → List ℕ → ℕ → List ℕ → List ℕ → ℕ → Type 0
Row bytes pre x s post q =
    (bytes ≡ pre ++ (x ∷ (s ++ post)))
    × (length pre ≡ q)
    × (q % row_size ≡ 0)
    × (suc (length s) ≤ row_size)

pub Row-Inside :
    (bytes pre s post : List ℕ) (x q : ℕ)
    → Row bytes pre x s post q
    → Inside bytes (pre ++ x ∷ []) s post q 1
Row-Inside bytes pre s post x q (e, l, h, k) = (
  e ∙ sym (append_assoc pre (x ∷ []) (s ++ post)),
  omega (arith, length-append pre (x ∷ [])),
  h,
  omega arith,
  omega arith,
)

pub Row-slice :
    (bytes pre s post : List ℕ) (x q : ℕ)
    → Row bytes pre x s post q
    → slice bytes q (suc (length s)) ≡ x ∷ s
Row-slice bytes pre s post x q (e, l, h, k) =
    rw (e, sym l, drop-append pre (x ∷ (s ++ post))) (take-append (x ∷ s) post)

pub Row-first :
    (bytes pre s post : List ℕ) (x q : ℕ) → Row bytes pre x s post q → get_or bytes q 0 ≡ x
Row-first bytes pre s post x q (e, l, h, k) = rw e (get_or-at pre (s ++ post) x q l)

-- A full row, with `n` bytes behind it.
pub Row-full :
    (bytes pre s post : List ℕ) (x q n size : ℕ)
    → Row bytes pre x s post q
    → suc (length s) ≡ row_size
    → q + row_size < size
    → print_from (row_size + n) bytes size q
      ≡ row_before bytes q ++ (margin ∷ (map hex (x ∷ s) ++ print_from n bytes size (q + row_size)))
unfolding print_from
Row-full bytes pre s post x q n size v f k =
    let y : row_size + n ≡ suc (length s + n) = omega arith in
    let z : q + 1 + length s ≡ q + row_size = omega arith in
    let i : print_from (length s + n) bytes size (q + 1)
        ≡ map hex s ++ print_from n bytes size (q + 1 + length s) =
      bytes-Inside bytes (pre ++ x ∷ []) s post size q 1 n (Row-Inside bytes pre s post x q v)
        (omega arith) in
    rw
      (
        y,
        print_from,
        byte_first bytes size q v.2 (omega arith),
        Row-first bytes pre s post x q v,
        i,
        z,
        append_assoc (row_before bytes q) (margin ∷ hex x ∷ [])
            (map hex s ++ print_from n bytes size (q + row_size)),
      )
      refl

-- The last row.
pub Row-last :
    (bytes pre s post : List ℕ) (x q size : ℕ)
    → Row bytes pre x s post q
    → q + suc (length s) ≡ size
    → print_from (suc (length s)) bytes size q
      ≡ row_before bytes q ++ (margin ∷ (map hex (x ∷ s) ++ row_end bytes q (suc (length s))))
unfolding print_from
Row-last bytes pre [] post x q size v k =
    rw
      (
        sym k,
        byte_only bytes q v.2,
        Row-first bytes pre [] post x q v,
        append-nil (row_before bytes q ++ (margin ∷ hex x ∷ row_end bytes q 1)),
      )
      refl
Row-last bytes pre (y ∷ s) post x q size v k =
    let i : print_from (suc (length s)) bytes size (q + 1)
        ≡ map hex (y ∷ s) ++ row_end bytes q (1 + suc (length s)) =
      bytes-Inside_end bytes (pre ++ x ∷ []) s post size q 1 y
        (Row-Inside bytes pre (y ∷ s) post x q v) (omega arith) in
    let u : 1 + suc (length s) ≡ suc (suc (length s)) = omega arith in
    rw
      (
        byte_first bytes size q v.2 (omega arith),
        Row-first bytes pre (y ∷ s) post x q v,
        i,
        u,
        append_assoc (row_before bytes q) (margin ∷ hex x ∷ [])
            (map hex (y ∷ s) ++ row_end bytes q (suc (suc (length s)))),
      )
      refl

pub row_before-next :
    (bytes pre s post : List ℕ) (x q : ℕ)
    → Row bytes pre x s post q
    → suc (length s) ≡ row_size
    → row_before bytes (q + row_size) ≡ text_of (x ∷ s)
unfolding row_before
row_before-next bytes pre s post x q v f =
    let z : (q + row_size == 0) ≡ false = ground arith in
    let m : q + row_size - row_size ≡ q = omega arith in
    let e : slice bytes q row_size ≡ x ∷ s =
      subst (λ n. slice bytes q n ≡ x ∷ s) f (Row-slice bytes pre s post x q v) in
    rw (z, m, e) refl
