-- ===== src/Chatter/Lines.antt =====
-- UDPChatter/multicast_chat_client.c: the loop of `main` over the lines, and `ThreadEntryPoint` on
-- a message. `sendto` and `pthread_create` succeed, and `send_msg` has room for the line. What
-- stands in memory behind the subject of a `!sendto` continues no name of the table.
pub mod Subjects
pub mod Heard
use network_programming_c.Prelude.{
  ℕ, zero, suc, ◌+◌, ◌-◌, Bool, true, false, ◌&&◌, Option, none, some, ◌>>=◌, List, [], ◌∷◌, ◌++◌,
  length, get_or, set, drop, ltb, leb, ◌==◌, if◌then◌else◌, str_eq, has_prefix, codes,
}

abbrev pub newline : ℕ
newline = 10

abbrev pub quote : ℕ
quote = 34

abbrev pub max_subjects : ℕ
max_subjects = 20

-- The globals; `tid` is always `num_threads`, when a line is read.
pub record Chat : Type 0 where
  pub subject_list : List (List ℕ)
  pub num_groups : ℕ
  pub num_threads : ℕ

-- `sockfd` of `main`, or `recv_sockfd` of a thread.
pub data Socket : Type 0 where
  sockfd : Socket
  recv_sockfd : ℕ → Socket

-- The number of the group in `addr`, which every message of `main` goes to: `num_groups` is 1 when
-- the loop over the groups sets it, and nothing sets it again.
abbrev pub addr_group : ℕ
addr_group = 0

-- A message through a socket to a group, and the header of a new subject.
pub data Sent : Type 0 where
  sends : Socket → ℕ → List ℕ → Sent
  announces : List ℕ → Sent

-- The call of `sendto` behind the tests, and the one for a row of the table.
abbrev pub to_group : List ℕ → Sent
to_group send_msg = sends sockfd addr_group send_msg

abbrev pub to_subject : ℕ → List ℕ → Sent
to_subject i send_msg = sends (recv_sockfd i) addr_group send_msg

pub data Chatted : Type 0 where
  exits : Chatted
  goes_on : Chat → List Sent → Chatted

-- The loop for the closing quote, behind the opening one, up to the end of the line: what stands
-- before it and behind it. `behind` must follow it, and it is not the first byte. The outer `none`
-- is a read behind a line with no newline.
unfoldable pub quoted_from : ℕ → List ℕ → List ℕ → Option (Option (List ℕ × List ℕ))
quoted_from behind seen [] = none
quoted_from behind seen (c ∷ line) =
    let rest = quoted_from behind (seen ++ c ∷ []) line in
    if c == newline
    then some none
    else (if ltb 0 (length seen) && (c == quote && get_or line 0 0 == behind)
        then some (some (seen, line))
        else rest)

-- The loop over the table, up to the first row that is empty. `none` is a read behind the table.
unfoldable pub known : List (List ℕ) → List ℕ → Option Bool
known [] subject = none
known ([] ∷ rows) subject = some false
known ((c ∷ row) ∷ rows) subject =
    let rest = known rows subject in if str_eq (c ∷ row) subject then some true else rest

-- `!subscribe` with a subject. The header of the subject has two bytes more, and a zero. `none` is
-- a write out of `subject`, of `temp` or of the vectors of subjects and threads.
unfoldable pub subscribe : List ℕ → Chat → List ℕ → Option Chatted
unfolding known
subscribe header c subject =
    if leb (length subject) 253
    then (known c.subject_list subject >>= λ old.
        if old
        then some (goes_on c (to_group header ∷ []))
        else (if ltb c.num_threads max_subjects
            then some (
                goes_on
                  (record {
                    subject_list = set c.subject_list (c.num_threads - 1) subject;
                    num_groups = c.num_groups + 1;
                    num_threads = c.num_threads + 1;
                  })
                  (announces subject ∷ []))
            else none))
    else none

-- The loop over the `n` rows from `i` on. `send_msg` grows with each row that fits.
unfoldable pub send_rows : ℕ → ℕ → List (List ℕ) → List ℕ → List ℕ → List ℕ → List Sent
send_rows i zero rows subject send_msg text = []
send_rows i (suc n) [] subject send_msg text = []
send_rows i (suc n) (row ∷ rows) subject send_msg text =
    let goes = send_rows (i + 1) n rows subject (send_msg ++ text) text in
    let stays = send_rows (i + 1) n rows subject send_msg text in
    if has_prefix row subject then to_subject (i + 1) (send_msg ++ text) ∷ goes else stays

-- The message goes to the group where no row fits.
abbrev pub or_group : List ℕ → List Sent → List Sent
or_group header [] = to_group header ∷ []
or_group header (s ∷ sent) = s ∷ sent

-- `!sendto` with a subject, to which the quote behind it is copied.
unfoldable pub send_to : List ℕ → Chat → List ℕ → List ℕ → Option Chatted
unfolding send_rows
send_to header c subject text =
    if ltb (length subject) 256
    then some (
        goes_on c (
          or_group header
            (send_rows 0 (c.num_threads - 1) c.subject_list (subject ++ quote ∷ []) header text)))
    else none

unfoldable pub subscribe_line : List ℕ → Chat → List ℕ → Option Chatted
unfolding quoted_from subscribe
subscribe_line header c line =
    if get_or line 0 0 == quote
    then (quoted_from newline [] (drop 1 line) >>= λ q. elim q [
      | none ↦ some (goes_on c (to_group header ∷ []))
      | some (subject, rest) ↦ subscribe header c subject
    ])
    else some (goes_on c (to_group header ∷ []))

unfoldable pub send_line : List ℕ → Chat → List ℕ → List ℕ → Option Chatted
unfolding quoted_from send_to
send_line header c line args =
    if get_or args 0 0 == quote
    then (quoted_from b' ' [] (drop 1 args) >>= λ q. elim q [
      | none ↦ some (goes_on c (to_group (header ++ line) ∷ []))
      | some (subject, rest) ↦ send_to header c subject (drop 1 rest)
    ])
    else some (goes_on c (to_group (header ++ line) ∷ []))

-- A round of the loop, for a line; `header` is what stands in `send_msg` before it.
unfoldable pub chat : List ℕ → Chat → List ℕ → Option Chatted
unfolding subscribe_line send_line
chat header c line =
    if str_eq line (codes "exit" ++ newline ∷ [])
    then some exits
    else (if str_eq line (newline ∷ [])
        then some (goes_on c [])
        else (if has_prefix (codes "!subscribe ") line
            then subscribe_line header c (drop 11 line)
            else (if has_prefix (codes "!sendto ") line
                then send_line header c line (drop 8 line)
                else some (goes_on c (to_group (header ++ line) ∷ [])))))

-- The loop of a thread that ends a message at its newlines: what is left is the part before the
-- first.
unfoldable pub first_line : List ℕ → List ℕ
first_line [] = []
first_line (c ∷ line) = let rest = first_line line in if c == newline then [] else c ∷ rest

-- The loop over the first `n` rows, for a row with the subject. `none` is a read behind the table.
unfoldable pub listed : ℕ → List (List ℕ) → List ℕ → Option Bool
listed zero rows subject = some false
listed (suc n) [] subject = none
listed (suc n) (row ∷ rows) subject =
    let rest = listed n rows subject in if str_eq row subject then some true else rest

-- A message to a thread: a subject that is announced goes to the row behind those that are counted
-- in `num_groups`. With no sign of a subject the message is printed.
unfoldable pub hears : Chat → List ℕ → Option Chat
unfolding first_line listed
hears c [] = some c
hears c (a ∷ line) =
    if a == b'#'
    then (listed c.num_groups c.subject_list (first_line line) >>= λ old.
        if old
        then some c
        else (if ltb c.num_groups max_subjects
            then some (record c {
              subject_list = set c.subject_list c.num_groups (first_line line);
              num_groups = c.num_groups + 1;
            })
            else none))
    else some c
