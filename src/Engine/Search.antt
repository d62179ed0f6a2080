-- ===== src/Engine/Search.antt =====
-- MyShell/engine.c: `insertTrie` beside `searchTrie`.
use network_programming_c.Prelude.{
  ℕ, zero, suc, ◌-◌, ◌≤◌, ◌<◌, ◌≡◌, refl, sym, ap, ◌∙◌, Bool, true, false, none, some, List, [],
  ◌∷◌, ◌==◌, if◌then◌else◌, All, arith, str_eq, Option-cases, Bool-cases, inl, inr,
}
use network_programming_c.Engine.{
  Trie, node, Children, end, null, child, nulls, new_node, child_slots, child_at, set_child,
  letter_position, insert_position, or_new, insert_trie, walk, search_trie,
}

abbrev pub slots : Children → ℕ
slots end = 0
slots (null cs) = suc (slots cs)
slots (child t cs) = suc (slots cs)

-- Every node has all of its child slots.
unfoldable mutual
  pub IsTrie : Trie → Type 0
  IsTrie (node e cs) = (slots cs ≡ child_slots) × AllTries cs

  pub AllTries : Children → Type 0
  AllTries end = Unit
  AllTries (null cs) = AllTries cs
  AllTries (child t cs) = IsTrie t × AllTries cs

abbrev pub IsLetter : ℕ → Type 0
IsLetter c = (b'a' ≤ c) × (c ≤ b'z')

letter_lem : (c : ℕ) → IsLetter c → letter_position c ≡ some (c - b'a')
unfolding letter_position
letter_lem c h = ground arith

insert_letter_lem : (c : ℕ) → IsLetter c → insert_position c ≡ some (c - b'a')
unfolding insert_position letter_position
insert_letter_lem c h = ground arith

child_at-set :
    (cs : Children) (p q : ℕ) (u : Trie)
    → p < slots cs
    → child_at (set_child cs p u) q ≡ (if q == p then some u else child_at cs q)
child_at-set end p q u h = absurd (omega arith)
child_at-set (null cs) zero zero u h = refl
child_at-set (null cs) zero (suc q) u h = ground arith
child_at-set (null cs) (suc p) zero u h = ground arith
child_at-set (null cs) (suc p) (suc q) u h = ground (arith, child_at-set cs p q u)
child_at-set (child t cs) zero zero u h = refl
child_at-set (child t cs) zero (suc q) u h = ground arith
child_at-set (child t cs) (suc p) zero u h = ground arith
child_at-set (child t cs) (suc p) (suc q) u h = ground (arith, child_at-set cs p q u)

slots-set : (cs : Children) (p : ℕ) (u : Trie) → slots (set_child cs p u) ≡ slots cs
slots-set end p u = refl
slots-set (null cs) zero u = refl
slots-set (null cs) (suc p) u = ap suc (slots-set cs p u)
slots-set (child t cs) zero u = refl
slots-set (child t cs) (suc p) u = ap suc (slots-set cs p u)

set-AllTries :
    (cs : Children) (p : ℕ) (u : Trie) → AllTries cs → IsTrie u → AllTries (set_child cs p u)
unfolding AllTries
set-AllTries end p u a h = tt
set-AllTries (null cs) zero u a h = (h, a)
set-AllTries (null cs) (suc p) u a h = set-AllTries cs p u a h
set-AllTries (child t cs) zero u a h = (h, a.1)
set-AllTries (child t cs) (suc p) u a h = (a.0, set-AllTries cs p u a.1 h)

nulls-AllTries : (n : ℕ) → (slots (nulls n) ≡ n) × AllTries (nulls n)
unfolding AllTries
nulls-AllTries zero = (refl, tt)
nulls-AllTries (suc n) = (ap suc (nulls-AllTries n).0, (nulls-AllTries n).1)

pub new_node-IsTrie : IsTrie new_node
unfolding IsTrie
new_node-IsTrie = nulls-AllTries child_slots

child_at-nulls : (n p : ℕ) → child_at (nulls n) p ≡ none
child_at-nulls zero p = refl
child_at-nulls (suc n) zero = refl
child_at-nulls (suc n) (suc p) = child_at-nulls n p

or_new-IsTrie : (cs : Children) (p : ℕ) → AllTries cs → IsTrie (or_new (child_at cs p))
unfolding AllTries
or_new-IsTrie end p a = new_node-IsTrie
or_new-IsTrie (null cs) zero a = new_node-IsTrie
or_new-IsTrie (null cs) (suc p) a = or_new-IsTrie cs p a
or_new-IsTrie (child t cs) zero a = a.0
or_new-IsTrie (child t cs) (suc p) a = or_new-IsTrie cs p a.1

pub walk_letter :
    (e : Bool) (cs : Children) (d : ℕ) (v : List ℕ)
    → IsLetter d
    → walk (node e cs) (d ∷ v)
      ≡ elim (child_at cs (d - b'a')) [ none ↦ some none | some t ↦ walk t v ]
unfolding walk
walk_letter e cs d v h = rw (letter_lem d h) refl

pub search_missing :
    (e : Bool) (cs : Children) (d : ℕ) (v : List ℕ)
    → IsLetter d
    → child_at cs (d - b'a') ≡ none
    → search_trie (node e cs) (d ∷ v) ≡ some false
unfolding search_trie
search_missing e cs d v h n = rw (walk_letter e cs d v h, n) refl

pub search_present :
    (e : Bool) (cs : Children) (d : ℕ) (v : List ℕ) (u : Trie)
    → IsLetter d
    → child_at cs (d - b'a') ≡ some u
    → search_trie (node e cs) (d ∷ v) ≡ search_trie u v
unfolding search_trie
search_present e cs d v u h n = rw (walk_letter e cs d v h, n) refl

search_new : (v : List ℕ) → All IsLetter v → search_trie new_node v ≡ some false
unfolding search_trie walk
search_new [] a = refl
search_new (d ∷ v) a =
    search_missing false (nulls child_slots) d v a.0 (child_at-nulls child_slots (d - b'a'))

search_child :
    (e : Bool) (cs : Children) (d : ℕ) (v : List ℕ)
    → IsLetter d
    → All IsLetter v
    → search_trie (node e cs) (d ∷ v) ≡ search_trie (or_new (child_at cs (d - b'a'))) v
search_child e cs d v h a = elim (Option-cases (child_at cs (d - b'a'))) [
  | inl n ↦ rw (n) (search_missing e cs d v h n ∙ sym (search_new v a))
  | inr (u, n) ↦ rw (n) (search_present e cs d v u h n)
]

-- What the search says of every word, when `s` has been put into `t` and `u` is the result.
abbrev pub Adds : Trie → List ℕ → Trie → Type 0
Adds t s u =
    (v : List ℕ)
    → All IsLetter v
    → search_trie u v ≡ (if str_eq v s then some true else search_trie t v)

Adds-end : (e : Bool) (cs : Children) → Adds (node e cs) [] (node true cs)
unfolding search_trie walk str_eq
Adds-end e cs [] a = refl
Adds-end e cs (d ∷ v) a = refl

pub search_end : (e : Bool) (cs : Children) → search_trie (node e cs) [] ≡ some e
unfolding search_trie walk
search_end e cs = refl

Adds-child :
    (e : Bool) (cs : Children) (c : ℕ) (s : List ℕ) (u : Trie)
    → IsLetter c
    → slots cs ≡ child_slots
    → Adds (or_new (child_at cs (c - b'a'))) s u
    → Adds (node e cs) (c ∷ s) (node e (set_child cs (c - b'a') u))
unfolding str_eq
Adds-child e cs c s u h n ih [] a = search_end e (set_child cs (c - b'a') u) ∙ sym (search_end e cs)
Adds-child e cs c s u h n ih (d ∷ v) a =
    let k = child_at-set cs (c - b'a') (d - b'a') u (omega arith) in
    let l = search_child e cs d v a.0 a.1 in
    elim (Bool-cases (d == c)) [
      | inl p ↦
          let q : d ≡ c = ground arith in
          let k2 : child_at (set_child cs (c - b'a') u) (d - b'a') ≡ some u = ground (arith, k) in
          let m : search_trie (node e cs) (d ∷ v)
              ≡ search_trie (or_new (child_at cs (c - b'a'))) v =
            rw (← q) l in
          rw (search_present e (set_child cs (c - b'a') u) d v u a.0 k2, p, m) (ih v a.1)
      | inr p ↦
          let k2 : child_at (set_child cs (c - b'a') u) (d - b'a') ≡ child_at cs (d - b'a') =
            ground (arith, k) in
          rw (search_child e (set_child cs (c - b'a') u) d v a.0 a.1, k2, p, l) refl
    ]

insert_trie-Adds :
    (t : Trie) (s : List ℕ)
    → IsTrie t
    → All IsLetter s
    → (u : Trie) × ((insert_trie t s ≡ some u) × (IsTrie u × Adds t s u))
unfolding insert_trie IsTrie
insert_trie-Adds (node e cs) [] w a = (node true cs, (refl, (w, Adds-end e cs)))
insert_trie-Adds (node e cs) (c ∷ s) w a =
    let p : ℕ = c - b'a' in
    let (u, (i, (v, f))) =
      insert_trie-Adds (or_new (child_at cs p)) s (or_new-IsTrie cs p w.1) a.1 in
    let k : insert_trie (node e cs) (c ∷ s) ≡ some (node e (set_child cs p u)) =
      rw (insert_letter_lem c a.0, i) refl in
    (
      node e (set_child cs p u),
      (k, ((slots-set cs p u ∙ w.0, set-AllTries cs p u w.1 v), Adds-child e cs c s u a.0 w.0 f)),
    )

-- A word `s` of the letters a to z can be put into a trie, and the result is a trie. There a word
-- `v` of these letters is found when it is `s` or was found before, and otherwise it is not.
pub insert_trie-search :
    (t : Trie) (s v : List ℕ)
    → IsTrie t
    → All IsLetter s
    → All IsLetter v
    → (u : Trie) × ((insert_trie t s ≡ some u)
        × (IsTrie u × (search_trie u v ≡ (if str_eq v s then some true else search_trie t v))))
insert_trie-search t s v w a b =
    let (u, (i, (x, f))) = insert_trie-Adds t s w a in (u, (i, (x, f v b)))
