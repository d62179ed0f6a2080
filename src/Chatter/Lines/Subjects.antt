-- ===== src/Chatter/Lines/Subjects.antt =====
-- UDPChatter/multicast_chat_client.c: a subject from its subscription to a message.
use network_programming_c.Prelude.{
  ℕ, ◌+◌, ◌≤◌, ◌<◌, ◌≡◌, ◌≢◌, refl, true, false, ◌&&◌, some, List, [], ◌∷◌, ◌++◌, length,
  length-append, append_assoc, append-nil, get_or, ltb, ◌==◌, has_prefix, codes, All, arith,
}
use network_programming_c.Chatter.Lines.{newline, quote, max_subjects, Chat, quoted_from}

-- A subject has at least one byte, no quote and no newline.
pub record IsSubject (s : List ℕ) : Type 0 where
  pub plain : All (λ c. ((c == newline) ≡ false) × ((c == quote) ≡ false)) s
  pub nonempty : 0 < length s
  pub short : length s ≤ 253

pub quoted_from-subject :
    (behind : ℕ) (seen s rest : List ℕ)
    → All (λ c. ((c == newline) ≡ false) × ((c == quote) ≡ false)) s
    → 0 < length (seen ++ s)
    → quoted_from behind seen (s ++ quote ∷ behind ∷ rest) ≡ some (some (seen ++ s, behind ∷ rest))
unfolding quoted_from
quoted_from-subject behind seen [] rest a h =
    let p : (ltb 0 (length seen) && behind == behind) ≡ true =
      ground (arith, h, length-append seen []) in
    rw (p, append-nil seen) refl
quoted_from-subject behind seen (c ∷ s) rest a h =
    let p : (ltb 0 (length seen)
          && (c == quote && get_or (s ++ quote ∷ behind ∷ rest) 0 0 == behind))
        ≡ false =
      rw (a.0.1) (ground arith) in
    let l = length-append seen (c ∷ []) in
    let m = length-append (seen ++ c ∷ []) s in
    rw
      (
        a.0.0,
        p,
        quoted_from-subject behind (seen ++ c ∷ []) s rest a.1 (omega (arith, l, m)),
        append_assoc seen (c ∷ []) s,
      )
      refl

-- The rows up to the first that is empty: none of them begins the subject with its quote.
pub record IsTable (c : Chat) (names rest : List (List ℕ)) (s : List ℕ) : Type 0 where
  pub rows : c.subject_list ≡ names ++ [] ∷ rest
  pub threads : c.num_threads ≡ length names + 1
  pub room : c.num_threads < max_subjects
  pub filled : All (λ n. n ≢ []) names
  pub others : All (λ n. has_prefix n (s ++ quote ∷ []) ≡ false) names

-- The chat when the subject is in the table.
abbrev pub with_subject : Chat → List (List ℕ) → List (List ℕ) → List ℕ → Chat
with_subject c names rest s = record {
  subject_list = names ++ s ∷ rest;
  num_groups = c.num_groups + 1;
  num_threads = c.num_threads + 1;
}

abbrev pub subscription : List ℕ → List ℕ
subscription s = codes "!subscribe " ++ quote ∷ (s ++ quote ∷ newline ∷ [])

abbrev pub message : List ℕ → List ℕ → List ℕ
message s text = codes "!sendto " ++ quote ∷ (s ++ quote ∷ b' ' ∷ text)
