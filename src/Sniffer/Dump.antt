-- ===== src/Sniffer/Dump.antt =====
-- Sniffer/read_messages.c: a dump that goes row by row, and the parts of the one of `print_data`.
pub mod Bytes
pub mod Rows
pub mod Whole
use network_programming_c.Prelude.{
  ℕ, zero, suc, ◌+◌, ◌-◌, ◌*◌, ◌/◌, ◌%◌, ◌<◌, ◌≤◌, ◌≡◌, ◌≢◌, refl, sym, subst, ap, ◌∙◌, Bool, true,
  false, ◌&&◌, not, List, [], ◌∷◌, ◌++◌, map, length, length-append, get_or, append-nil, take,
  take-append, drop, drop-append, replicate, append_assoc, ◌==◌, if◌then◌else◌, arith, All,
  Bool-cases, inl, inr,
}
use network_programming_c.Sniffer.{
  Entry, hex, gap, margin, row_size, shown, slice, text_of, print_byte, print_from, print_data,
}

-- A row: the margin, its bytes, spaces in place of those that are missing, and its characters.
abbrev pub dump_row : List ℕ → List Entry
dump_row row = margin ∷ (map hex row ++ (replicate (row_size - length row) gap ++ text_of row))

abbrev pub dump_rows : List (List ℕ) → List ℕ → List Entry
dump_rows [] last = dump_row last
dump_rows (row ∷ rows) last = dump_row row ++ dump_rows rows last

abbrev pub all_bytes : List (List ℕ) → List ℕ → List ℕ
all_bytes [] last = last
all_bytes (row ∷ rows) last = row ++ all_bytes rows last

-- What a row begins with: the characters of the row before it.
unfoldable pub row_before : List ℕ → ℕ → List Entry
row_before bytes i = if not (i == 0) then text_of (slice bytes (i - row_size) row_size) else []

-- What the last byte ends with, `n` being the bytes of its row from `q` on.
unfoldable pub row_end : List ℕ → ℕ → ℕ → List Entry
row_end bytes q n = replicate (row_size - n) gap ++ text_of (slice bytes q n)
