-- ===== src/Prelude/Insertions.antt =====
-- Lists with one element more.
use mathlib.Core.Path.{◌≡◌, refl}
use mathlib.Core.List.{List, ◌∷◌, ◌++◌, append_assoc}

-- The second list is the first with `x` at one place more.
pub record Adds {A : Type 0} (x : A) (xs ys : List A) : Type 0 where
  pub front : List A
  pub back : List A
  pub before : xs ≡ front ++ back
  pub after : ys ≡ front ++ x ∷ back

module _ {A : Type 0} where
  pub Adds-under :
      (x : A) (us vs xs ys : List A) → Adds x xs ys → Adds x (us ++ (xs ++ vs)) (us ++ (ys ++ vs))
  Adds-under x us vs xs ys a = record {
    front = us ++ a.front;
    back = a.back ++ vs;
    before =
        rw (a.before, append_assoc us a.front (a.back ++ vs), append_assoc a.front a.back vs) refl;
    after =
        rw
          (
            a.after,
            append_assoc us a.front (x ∷ (a.back ++ vs)),
            append_assoc a.front (x ∷ a.back) vs,
          )
          refl;
  }

  pub Adds-back : (x : A) (us xs ys : List A) → Adds x xs ys → Adds x (us ++ xs) (us ++ ys)
  Adds-back x us xs ys a = record {
    front = us ++ a.front;
    back = a.back;
    before = rw (a.before, append_assoc us a.front a.back) refl;
    after = rw (a.after, append_assoc us a.front (x ∷ a.back)) refl;
  }
