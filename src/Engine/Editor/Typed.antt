-- ===== src/Engine/Editor/Typed.antt =====
-- What the editing loop of MyShell/engine.c makes of the keys.
use network_programming_c.Prelude.{
  ℕ, zero, suc, ◌≡◌, ◌≢◌, refl, false, List, [], ◌∷◌, ◌++◌, ◌==◌, if◌then◌else◌, arith, ◌≤◌,
}
use network_programming_c.Engine.Editor.{newline, tab, alt_backspace, Editor, store, op_bytes}

-- A character that is typed.
abbrev pub IsTyped : ℕ → Type 0
IsTyped c = (c ≢ newline) × (c ≢ tab) × (c ≢ alt_backspace) × (c ≢ 0)

-- The word behind the last space, when `w` stands before the line.
abbrev pub word_from : List ℕ → List ℕ → List ℕ
word_from w [] = w
word_from w (c ∷ s) = if c == b' ' then word_from [] s else word_from (w ++ c ∷ []) s

pub op_bytes-store : (op : ℕ → ℕ) (n i v : ℕ) → n ≤ i → op_bytes (store op i v) n ≡ op_bytes op n
unfolding op_bytes store
op_bytes-store op zero i v h = refl
op_bytes-store op (suc n) i v h =
    let e : (n == i) ≡ false = ground arith in rw (op_bytes-store op n i v (omega arith), e) refl
