-- ===== src/Engine/Editor.antt =====
-- MyShell/engine.c: the editing loop of `main` with `backspace`, `clear_complete`, `select_word`,
-- `find_space` and `replace_word`. The line stays in one row of the screen, with the cursor behind
-- its last character; the completions below it are not modelled. The strings have room for what is
-- written to them. `none` is a fault, an input that ends without a newline, or the branch that moves
-- the cursor back (`xpos != -1`).
pub mod Typed
pub mod Chosen
use network_programming_c.Prelude.{
  ℕ, zero, suc, ◌+◌, ◌-◌, ◌%◌, Bool, true, false, ◌&&◌, Option, none, some, ◌>>=◌, List, [], ◌∷◌,
  ◌++◌, length, take, drop, get_or, get_elem?, ltb, ◌==◌, if◌then◌else◌, c_string,
}
use network_programming_c.Engine.{Trie, complete_word}

abbrev pub newline : ℕ
newline = 10

abbrev pub tab : ℕ
tab = 9

abbrev pub alt_backspace : ℕ
alt_backspace = 127

-- The variables of `main` and the globals. `op` is memory; `completion_arr` keeps the words of
-- earlier completions behind `completion_count`.
pub record Editor : Type 0 where
  pub row : List ℕ
  pub x : ℕ
  pub k : ℕ
  pub op : ℕ → ℕ
  pub tab_check : Bool
  pub tab_count : ℕ
  pub completion_arr : List (List ℕ)
  pub completion_count : ℕ
  pub xpos : Option ℕ

unfoldable pub store : (ℕ → ℕ) → ℕ → ℕ → ℕ → ℕ
store op i v j = if j == i then v else op j

-- The string at `op` when there is a zero at `n`.
unfoldable pub op_bytes : (ℕ → ℕ) → ℕ → List ℕ
op_bytes op zero = []
op_bytes op (suc n) = op_bytes op n ++ op n ∷ []

unfoldable pub clear_complete : Editor → Editor
clear_complete e = record e { completion_count = 0 }

-- From the column `n - 1` down.
unfoldable pub find_space : List ℕ → ℕ → ℕ
find_space row zero = 0
find_space row (suc n) = let rest = find_space row n in if get_or row n 0 == b' ' then n else rest

unfoldable pub replace_word : Editor → ℕ → List ℕ → Editor
replace_word e pos word =
    let x0 : ℕ = if pos == 0 then pos else pos + 1 in
    record e { row = take x0 e.row ++ word; x = x0 }

unfoldable pub backspace : Editor → Editor
backspace e = record e { row = take (length e.row - 1) e.row; x = length e.row }

-- A key of the loop: it goes on, or it ends.
pub data Key : Type 0 where
  goes_on : Editor → Key
  ends : Editor → Key

-- A second tab: the next word of the list, or the end of the loop.
unfoldable pub select_next : Editor → Option Key
unfolding find_space replace_word
select_next e =
    if ltb e.completion_count e.tab_count
    then some (ends e)
    else (get_elem? e.completion_arr e.tab_count >>= λ word.
        let e1 : Editor = replace_word e (find_space e.row e.x) word in
        let n : ℕ =
          if e.completion_count == 0 then e.tab_count else (e.tab_count + 1) % e.completion_count in
        some (goes_on (record e1 { k = length word; tab_count = n })))

-- A first tab: the completions of what was typed.
unfoldable pub list_words : Trie → Editor → Option Key
unfolding store op_bytes clear_complete
list_words root e =
    let e1 : Editor =
      clear_complete (record e { tab_check = true; op = store e.op e.k 0; x = length e.row }) in
    complete_word root (c_string (op_bytes e.op e.k)) >>= λ words. some (
      goes_on (record e1 {
        completion_arr = words ++ drop (length words) e.completion_arr;
        completion_count = length words;
      }))

abbrev pub press_tab : Trie → Editor → Option ℕ → Option Key
press_tab root e (some x) = none
press_tab root e none = if e.tab_check then select_next e else list_words root e

unfoldable pub type_char : Editor → ℕ → Editor
unfolding store
type_char e ch =
    let e1 : Editor = record e {
      tab_check = false;
      tab_count = 0;
      row = e.row ++ ch ∷ [];
      xpos = none;
    } in
    if ch == b' ' then record e1 { k = 0 } else record e1 { op = store e.op e.k ch; k = e.k + 1 }

-- A space behind a tab, before it is typed.
unfoldable pub leave_words : Editor → Editor
unfolding clear_complete
leave_words e = record (clear_complete e) {
  x = length e.row;
  tab_count = 0;
  xpos = some (length e.row);
}

-- The body of the loop.
unfoldable pub press : Trie → Editor → ℕ → Option Key
unfolding select_next list_words backspace type_char leave_words
press root e ch =
    let e1 : Editor = if ch == b' ' && e.tab_check then leave_words e else e in
    if ch == tab
    then press_tab root e1 e1.xpos
    else (if ch == alt_backspace
        then some (
            goes_on (record (backspace e1) {
              tab_check = false;
              tab_count = 0;
              xpos = none;
              k = e1.k - 1;
            }))
        else some (goes_on (type_char e1 ch)))

-- What is behind the loop: `op`, as it is compared with "exit".
unfoldable pub entered : Editor → List ℕ
entered e = c_string (op_bytes e.op e.k)

abbrev pub continue_with : (Editor → Option Editor) → Key → Option Editor
continue_with next (goes_on e) = next e
continue_with next (ends e) = some e

-- The loop up to the newline.
unfoldable pub edit : Trie → Editor → List ℕ → Option Editor
unfolding press
edit root e [] = none
edit root e (ch ∷ keys) =
    let next : Editor → Option Editor = λ e1. edit root e1 keys in
    if ch == newline then some e else (press root e ch >>= λ r. continue_with next r)
