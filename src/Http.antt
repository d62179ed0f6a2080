-- ===== src/Http.antt =====
-- HTTP Requests/client.c (client_post.c is the same) and post.c: the making of the request, and the
-- loop that writes it. What the calls for the socket and
-- the address do is not modelled, only whether each succeeds, nor the printing of the answer.
pub mod Sent
mod Tests
use network_programming_c.Prelude.{
  ℕ, zero, suc, ◌+◌, ◌-◌, Bool, true, false, Option, none, some, ◌>>=◌, List, [], ◌∷◌, ◌++◌, length,
  take, drop, ltb, leb, if◌then◌else◌, codes,
}

abbrev pub Text : Type 0
Text = List ℕ

abbrev pub crlf : Text
crlf = 13 ∷ 10 ∷ []

-- What `snprintf` leaves in a buffer of this size: the zero at the end takes a byte.
unfoldable pub snprintf : ℕ → Text → Text
snprintf size text = take (size - 1) text

abbrev pub max_request_len : ℕ
max_request_len = 1024

abbrev pub before_host : Text
before_host = codes "GET / HTTP/1.1" ++ crlf ++ codes "Host: "

abbrev pub behind_host : Text
behind_host = crlf ++ crlf ++ codes "Connection: close" ++ crlf

-- `request_header` with the name of the host.
unfoldable pub request_header : Text → Text
request_header hostname = before_host ++ (hostname ++ behind_host)

-- A call that fails ends the program.
abbrev guard : Bool → Option (Unit {0})
guard true = some tt
guard false = none

infixl 5 ◌>>◌
abbrev ◌>>◌ {ℓ} : {B : Type ℓ} → Option (Unit {0}) → Option B → Option B
m >> k = m >>= λ _. k

-- The request, or the end of the program when it does not fit.
unfoldable pub make_request : Text → Option Text
unfolding snprintf
make_request hostname =
    let text : Text = request_header hostname in
    if leb max_request_len (length text) then none else some (snprintf max_request_len text)

-- What the loop has written, and how it ends: with the whole request, with an error of `write`, or,
-- out of fuel, not at all.
pub data Progress : Type 0 where
  is_sent : Progress
  fails : Progress
  goes_on : Progress

pub record Sending : Type 0 where
  pub written : Text
  pub ending : Progress

-- What is done with the answer of `write`.
abbrev pub after_write : Text → (ℕ → Sending) → Option ℕ → Sending
after_write written next none = record { written = written; ending = fails }
after_write written next (some n) = next n

-- The loop. `write total count` is what `write` returns for the rest of the request behind `total`
-- bytes, of which there are `count`; `none` is -1. It takes so many bytes from the front.
unfoldable pub write_loop : (ℕ → ℕ → Option ℕ) → Text → ℕ → ℕ → Text → Sending
write_loop write request zero total written = record { written = written; ending = goes_on }
write_loop write request (suc fuel) total written =
    let next : ℕ → Sending =
      λ n. write_loop write request fuel (total + n) (written ++ take n (drop total request)) in
    if ltb total (length request)
    then after_write written next (write total (length request - total))
    else record { written = written; ending = is_sent }

-- A byte at least is written in each round.
unfoldable pub send_request : (ℕ → ℕ → Option ℕ) → Text → Sending
unfolding write_loop
send_request write request = write_loop write request (length request + 1) 0 []

-- Whether each of the calls before the loop succeeds.
pub record Calls : Type 0 where
  pub getprotobyname : Bool
  pub socket : Bool
  pub gethostbyname : Bool
  pub inet_addr : Bool
  pub connect : Bool

-- The calls in their order, each with its exit.
unfoldable pub sets_up : Calls → Option (Unit {0})
sets_up calls = do
  guard calls.getprotobyname
  guard calls.socket
  guard calls.gethostbyname
  guard calls.inet_addr
  guard calls.connect

-- The program up to the reading of the answer; `none` is an exit before anything is written.
unfoldable pub client : Calls → (ℕ → ℕ → Option ℕ) → Text → Option Sending
unfolding make_request send_request sets_up
client calls write hostname = do
  request ← make_request hostname
  sets_up calls
  some (send_request write request)

-- `process_http` of post.c: the buffer has 4097 bytes, and `snprintf` is told of 200. `decimal` is
-- what `%d` prints.
abbrev pub max_sub : ℕ
max_sub = 200

unfoldable pub post_text : (ℕ → Text) → Text → Text → Text → Text
post_text decimal host page poststr =
    codes "POST "
    ++ page
    ++ codes " HTTP/1.1"
    ++ crlf
    ++ codes "Host: "
    ++ host
    ++ crlf
    ++ codes "User-Agent:Mozilla/5.0"
    ++ crlf
    ++ codes "Content-Type: application/x-www-form-urlencoded"
    ++ crlf
    ++ codes "Content-Length: "
    ++ decimal (length poststr)
    ++ crlf
    ++ crlf
    ++ poststr

unfoldable pub process_http : (ℕ → Text) → Text → Text → Text → Text
unfolding snprintf post_text
process_http decimal host page poststr = snprintf max_sub (post_text decimal host page poststr)
