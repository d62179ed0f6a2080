-- ===== src/Engine/Editor/Chosen.antt =====
-- What the editing loop of MyShell/engine.c makes of a word and two tabs.
use network_programming_c.Prelude.{ℕ, ◌+◌, true, List, ◌∷◌, ◌++◌, length, drop, ◌%◌}
use network_programming_c.Engine.Editor.{Editor, store}

-- The state behind the first tab, with the words that it finds.
abbrev listing : Editor → List ℕ → List (List ℕ) → Editor
listing e v vs = record e {
  tab_check = true;
  op = store e.op e.k 0;
  x = length e.row;
  completion_arr = (v ∷ vs) ++ drop (length (v ∷ vs)) e.completion_arr;
  completion_count = length (v ∷ vs);
}

-- The state behind the second tab.
abbrev chosen : Editor → List ℕ → List (List ℕ) → Editor
chosen e v vs = record (listing e v vs) {
  row = v;
  x = 0;
  k = length v;
  tab_count = (e.tab_count + 1) % length (v ∷ vs);
}
