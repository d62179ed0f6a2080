-- ===== src/Chatter/Lines/Heard.antt =====
-- UDPChatter/multicast_chat_client.c: a subject that another client has announced.
use network_programming_c.Prelude.{
  ℕ, ◌≡◌, refl, ◌<◌, true, false, some, List, [], ◌∷◌, ◌++◌, length, replicate, leb, str_eq,
  has_prefix, All, arith, ◌==◌,
}
use network_programming_c.Chatter.Lines.{
  newline, quote, max_subjects, Chat, announces, goes_on, known, subscribe, subscribe_line, chat,
  first_line, listed, hears,
}
use network_programming_c.Chatter.Lines.Subjects.{IsSubject, quoted_from-subject, subscription}

-- The globals at the start.
abbrev pub fresh_chat : Chat
fresh_chat = record { subject_list = replicate max_subjects []; num_groups = 1; num_threads = 1 }

-- A new client that has heard of a subject.
abbrev pub heard_chat : List ℕ → Chat
heard_chat s = record { subject_list = [] ∷ s ∷ replicate 18 []; num_groups = 2; num_threads = 1 }

first_line-subject :
    (s : List ℕ)
    → All (λ c. ((c == newline) ≡ false) × ((c == quote) ≡ false)) s
    → first_line (s ++ newline ∷ []) ≡ s
unfolding first_line
first_line-subject [] a = refl
first_line-subject (c ∷ s) a = rw (a.0.0, first_line-subject s a.1) refl

str_eq_nil : (s : List ℕ) → 0 < length s → str_eq [] s ≡ false
unfolding str_eq
str_eq_nil [] h = absurd (omega arith)
str_eq_nil (c ∷ s) h = refl

hears-subject :
    (s : List ℕ) → IsSubject s → hears fresh_chat (b'#' ∷ (s ++ newline ∷ [])) ≡ some (heard_chat s)
unfolding hears listed
hears-subject s p = rw (first_line-subject s p.plain, str_eq_nil s p.nonempty) refl

-- A new client puts the subject that it hears of into the second row, and leaves the first empty.
-- So a subscription to it is taken as new: it is announced again, and the table holds it twice.
pub hears-subscribe :
    (header s : List ℕ)
    → IsSubject s
    → (hears fresh_chat (b'#' ∷ (s ++ newline ∷ [])) ≡ some (heard_chat s))
      × (chat header (heard_chat s) (subscription s)
          ≡ some (
              goes_on
                (record { subject_list = s ∷ s ∷ replicate 18 []; num_groups = 3; num_threads = 2 })
                (announces s ∷ [])))
unfolding chat subscribe_line subscribe known str_eq has_prefix
hears-subscribe header s p =
    let short : leb (length s) 253 ≡ true = ground (arith, p.short) in
    (hears-subject s p, rw (quoted_from-subject newline [] s [] p.plain p.nonempty, short) refl)
