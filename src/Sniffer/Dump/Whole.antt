-- ===== src/Sniffer/Dump/Whole.antt =====
-- Sniffer/read_messages.c: the dump of `print_data` of a whole buffer.
use network_programming_c.Prelude.{
  ℕ, suc, ◌+◌, ◌-◌, ◌%◌, ◌≤◌, ◌≡◌, refl, sym, ap, ◌∙◌, List, [], ◌∷◌, ◌++◌, map, length,
  length-append, replicate, append_assoc, arith, All,
}
use network_programming_c.Sniffer.{hex, gap, row_size, text_of, print_from, print_data}
use network_programming_c.Sniffer.Dump.{dump_rows, all_bytes, row_before, row_end}
use network_programming_c.Sniffer.Dump.Rows.{Row, Row-slice, Row-full, Row-last, row_before-next}

-- The rows are full, and the last has at least one byte and at most 16.
abbrev pub IsFull : List ℕ → Type 0
IsFull row = length row ≡ row_size

abbrev pub IsLast : List ℕ → Type 0
IsLast last = (1 ≤ length last) × (length last ≤ row_size)

row_end-Row :
    (bytes pre s post : List ℕ) (x q : ℕ)
    → Row bytes pre x s post q
    → row_end bytes q (suc (length s))
      ≡ replicate (row_size - suc (length s)) gap ++ text_of (x ∷ s)
unfolding row_end
row_end-Row bytes pre s post x q v = rw (Row-slice bytes pre s post x q v) refl

some_behind :
    (rows : List (List ℕ)) (last : List ℕ) → IsLast last → 1 ≤ length (all_bytes rows last)
some_behind [] last b = b.0
some_behind (row ∷ rows) last b =
    omega (arith, some_behind rows last b, length-append row (all_bytes rows last))

dump_from :
    (bytes pre junk last : List ℕ) (rows : List (List ℕ)) (q size : ℕ)
    → bytes ≡ pre ++ (all_bytes rows last ++ junk)
    → length pre ≡ q
    → q % row_size ≡ 0
    → q + length (all_bytes rows last) ≡ size
    → All IsFull rows
    → IsLast last
    → print_from (length (all_bytes rows last)) bytes size q
      ≡ row_before bytes q ++ dump_rows rows last
dump_from bytes pre junk [] [] q size e l h k a b = absurd (omega (arith, b))
dump_from bytes pre junk (x ∷ s) [] q size e l h k a b =
    let v : Row bytes pre x s junk q = (e, l, h, b.1) in
    rw (Row-last bytes pre s junk x q size v k, row_end-Row bytes pre s junk x q v) refl
dump_from bytes pre junk last ([] ∷ rows) q size e l h k a b = absurd (omega (arith, a.0))
dump_from bytes pre junk last ((x ∷ s) ∷ rows) q size e l h k a b =
    let behind : List ℕ = all_bytes rows last in
    let e' : bytes ≡ pre ++ (x ∷ (s ++ (behind ++ junk))) =
      e ∙ ap (λ t. pre ++ (x ∷ t)) (append_assoc s behind junk) in
    let v : Row bytes pre x s (behind ++ junk) q = (e', l, h, omega (arith, a.0)) in
    let m : suc (length (s ++ behind)) ≡ row_size + length behind =
      omega (arith, a.0, length-append s behind) in
    let g : row_size - suc (length s) ≡ 0 = omega (arith, a.0) in
    let rest : print_from (length behind) bytes size (q + row_size)
        ≡ row_before bytes (q + row_size) ++ dump_rows rows last =
      dump_from bytes (pre ++ x ∷ s) junk last rows (q + row_size) size
        (e' ∙ sym (append_assoc pre (x ∷ s) (behind ++ junk)))
        (omega (arith, a.0, length-append pre (x ∷ s))) (omega arith) (omega arith) a.1 b in
    rw
      (
        m,
        Row-full bytes pre s (behind ++ junk) x q (length behind) size v a.0
            (omega (arith, a.0, some_behind rows last b)),
        rest,
        row_before-next bytes pre s (behind ++ junk) x q v a.0,
        g,
        append_assoc (map hex s) (text_of (x ∷ s)) (dump_rows rows last),
      )
      refl

-- The loop prints a whole buffer of full rows and a last one, whatever stands behind them in
-- memory, exactly as row by row: each row has its margin, its bytes, three spaces for each byte
-- that the last row has not, and then its characters.
pub print_data-rows :
    (rows : List (List ℕ)) (last junk : List ℕ)
    → All IsFull rows
    → IsLast last
    → print_data (all_bytes rows last ++ junk) (length (all_bytes rows last)) ≡ dump_rows rows last
unfolding print_data row_before
print_data-rows rows last junk a b =
    dump_from (all_bytes rows last ++ junk) [] junk last rows 0 (length (all_bytes rows last)) refl
      refl refl (omega arith) a b
