-- ===== src/ClusterShell/Config/Entries.antt =====
-- ClusterShell/clustershell_server.c: files that are put together from comments and entries.
use network_programming_c.Prelude.{
  ℕ, ◌+◌, ◌≤◌, ◌<◌, ◌≡◌, ◌≢◌, refl, true, false, ◌&&◌, some, List, [], ◌∷◌, ◌++◌, length,
  length-append, append_assoc, append-nil, ltb, ◌==◌, has_prefix, codes, All, arith,
}
use network_programming_c.ClusterShell.Config.{max_nodes, comma, entry_from, add_entry, read_lines}

-- A comment without its sign, or a name and what stands behind its comma.
pub data Item : Type 0 where
  comment : List ℕ → Item
  entry : List ℕ → List ℕ → Item

abbrev pub item_line : Item → List ℕ
item_line (comment text) = b'#' ∷ text
item_line (entry name ip) = name ++ comma ∷ ip

abbrev pub item_lines : List Item → List (List ℕ)
item_lines [] = []
item_lines (x ∷ xs) = item_line x ∷ item_lines xs

abbrev pub entries : List Item → List (List ℕ × List ℕ)
entries [] = []
entries (comment text ∷ xs) = entries xs
entries (entry name ip ∷ xs) = (name, ip) ∷ entries xs

-- A comment does not end the file. A name has at least one byte and no comma, and does not begin
-- like a comment; what stands behind the comma is not empty.
abbrev pub IsItem : Item → Type 0
IsItem (comment text) = has_prefix (codes " End") text ≡ false
IsItem (entry [] ip) = ⊥
IsItem (entry (c ∷ name) []) = ⊥
IsItem (entry (c ∷ name) (d ∷ ip)) = (c ≢ b'#') × All (λ a. (a == comma) ≡ false) (c ∷ name)

entry_from-name :
    (seen name ip : List ℕ)
    → 0 < length (seen ++ name)
    → All (λ a. (a == comma) ≡ false) name
    → entry_from seen (name ++ comma ∷ ip) ≡ some (seen ++ name, ip)
unfolding entry_from
entry_from-name seen [] ip h a =
    let p : (ltb 0 (length seen) && comma == comma) ≡ true =
      ground (arith, h, length-append seen []) in
    rw (p, append-nil seen) refl
entry_from-name seen (c ∷ name) ip h a =
    let p : (ltb 0 (length seen) && c == comma) ≡ false = ground (arith, a.0) in
    let l = length-append seen (c ∷ []) in
    let m = length-append (seen ++ c ∷ []) name in
    rw
      (
        p,
        entry_from-name (seen ++ c ∷ []) name ip (omega (arith, l, m)) a.1,
        append_assoc seen (c ∷ []) name,
      )
      refl

read_lines-items :
    (es : List (List ℕ × List ℕ)) (items : List Item) (behind : List (List ℕ))
    → length es + length (entries items) ≤ max_nodes
    → All IsItem items
    → read_lines es (item_lines items ++ codes "# End" ∷ behind) ≡ some (es ++ entries items)
unfolding read_lines has_prefix add_entry
read_lines-items es [] behind h a = rw (append-nil es) refl
read_lines-items es (comment text ∷ items) behind h a =
    rw (a.0, read_lines-items es items behind h a.1) refl
read_lines-items es (entry [] ip ∷ items) behind h a = absurd a.0
read_lines-items es (entry (c ∷ name) [] ∷ items) behind h a = absurd a.0
read_lines-items es (entry (c ∷ name) (d ∷ ip) ∷ items) behind h a =
    let other : (b'#' == c) ≡ false = ground (arith, a.0.0) in
    let l = length-append es ((c ∷ name, d ∷ ip) ∷ []) in
    let room : ltb (length es) max_nodes ≡ true = ground arith in
    rw
      (
        other,
        entry_from-name [] (c ∷ name) (d ∷ ip) (omega arith) a.0.1,
        room,
        read_lines-items (es ++ (c ∷ name, d ∷ ip) ∷ []) items behind (omega (arith, l)) a.1,
        append_assoc es ((c ∷ name, d ∷ ip) ∷ []) (entries items),
      )
      refl

-- A file of comments and of at most 200 entries, up to a line `# End`, gives these entries in their
-- order, whatever stands behind that line.
pub read_lines-entries :
    (items : List Item) (behind : List (List ℕ))
    → length (entries items) ≤ max_nodes
    → All IsItem items
    → read_lines [] (item_lines items ++ codes "# End" ∷ behind) ≡ some (entries items)
read_lines-entries items behind h a = read_lines-items [] items behind (omega arith) a
