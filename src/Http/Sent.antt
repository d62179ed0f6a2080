-- ===== src/Http/Sent.antt =====
-- The loop of HTTP Requests/client.c writes the whole request.
use network_programming_c.Prelude.{
  ℕ, zero, suc, ◌+◌, ◌-◌, ◌<◌, ◌≤◌, ◌≡◌, refl, sym, ap, ◌∙◌, true, false, ◌&&◌, Option, none, some,
  [], ◌∷◌, ◌++◌, length, take, drop, ltb, leb, inl, inr, Bool-cases, arith, take_all, length-append,
  if◌then◌else◌,
}
use network_programming_c.Http.{
  Text, is_sent, write_loop, send_request, request_header, make_request, snprintf, max_request_len,
  before_host, behind_host, Calls, sets_up, client,
}

-- What POSIX says of `write` without an error: some of the bytes are written.
abbrev pub WritesSome : (ℕ → ℕ → Option ℕ) → Type 0
WritesSome write =
    (total count : ℕ) → 0 < count → (n : ℕ) × (write total count ≡ some n) × (0 < n) × (n ≤ count)

take-sum : (a b : ℕ) (xs : Text) → take a xs ++ take b (drop a xs) ≡ take (a + b) xs
take-sum zero b xs = let e : 0 + b ≡ b = omega arith in rw (e) refl
take-sum (suc a) b [] = take_all b [] (omega arith) ∙ sym (take_all (suc a + b) [] (omega arith))
take-sum (suc a) b (x ∷ xs) =
    let e : suc a + b ≡ suc (a + b) = omega arith in rw (e) (ap (λ l. x ∷ l) (take-sum a b xs))

write_loop-sent :
    (write : ℕ → ℕ → Option ℕ) (request : Text) (fuel total : ℕ)
    → WritesSome write
    → total ≤ length request
    → length request - total < fuel
    → write_loop write request fuel total (take total request)
      ≡ record { written = request; ending = is_sent }
unfolding write_loop
write_loop-sent write request zero total w l f = absurd (omega arith)
write_loop-sent write request (suc fuel) total w l f =
    elim (Bool-cases (ltb total (length request))) [
      | inl t ↦
          let p : 0 < length request - total = ground arith in
          let (n, e, b, c) = w total (length request - total) p in
          let r : write_loop write request fuel (total + n) (take (total + n) request)
              ≡ record { written = request; ending = is_sent } =
            write_loop-sent write request fuel (total + n) w (omega arith) (omega arith) in
          rw (t, e, take-sum total n request) r
      | inr t ↦
          let g : length request ≤ total = ground arith in rw (t, take_all total request g) refl
    ]

-- The loop ends, with the whole request written, whatever parts of it each call of `write` takes.
pub send_request-sent :
    (write : ℕ → ℕ → Option ℕ) (request : Text)
    → WritesSome write
    → send_request write request ≡ record { written = request; ending = is_sent }
unfolding send_request
send_request-sent write request w =
    write_loop-sent write request (length request + 1) 0 w (omega arith) (omega arith)

length-request_header : (hostname : Text) → length (request_header hostname) ≡ length hostname + 45
unfolding request_header
length-request_header hostname =
    omega (
      arith,
      length-append before_host (hostname ++ behind_host),
      length-append hostname behind_host,
    )

make_request-fits :
    (hostname : Text)
    → length hostname < 979
    → make_request hostname ≡ some (request_header hostname)
unfolding make_request snprintf
make_request-fits hostname h =
    let l = length-request_header hostname in
    let t : leb max_request_len (length (request_header hostname)) ≡ false =
      ground (arith, length-request_header hostname) in
    rw (t, take_all (max_request_len - 1) (request_header hostname) (omega (arith, l))) refl

make_request-long : (hostname : Text) → 979 ≤ length hostname → make_request hostname ≡ none
unfolding make_request
make_request-long hostname h =
    let t : leb max_request_len (length (request_header hostname)) ≡ true =
      ground (arith, length-request_header hostname) in
    rw (t) refl

-- The client writes the header with the name of the host, all of it, and the loop ends, when each
-- call of `write` takes any number of the bytes, at least one, without an error; with a name of 979
-- bytes or more, or where one of the calls for the socket, the address and the connection fails, it
-- exits before and writes nothing.
pub client-request :
    (calls : Calls) (write : ℕ → ℕ → Option ℕ) (hostname : Text)
    → WritesSome write
    → client calls write hostname ≡ (
        if ltb (length hostname) 979
          && (calls.getprotobyname
              && (calls.socket && (calls.gethostbyname && (calls.inet_addr && calls.connect))))
        then some (record { written = request_header hostname; ending = is_sent })
        else none)
unfolding client sets_up
client-request calls write hostname w = elim (Bool-cases (ltb (length hostname) 979)) [
  | inl t ↦
      let h : length hostname < 979 = ground arith in
      let m = make_request-fits hostname h in
      let s = send_request-sent write (request_header hostname) w in rw (t, m, s) (ground arith)
  | inr t ↦
      let h : 979 ≤ length hostname = ground arith in rw (t, make_request-long hostname h) refl
]
