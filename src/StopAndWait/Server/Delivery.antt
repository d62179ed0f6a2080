-- ===== src/StopAndWait/Server/Delivery.antt =====
-- N-Channel-StopNWait/server.c: packets in any order, and the output file.
use network_programming_c.Prelude.{
  ℕ, suc, ◌+◌, ◌≤◌, ◌<◌, ◌≡◌, refl, ap₂, ◌⊎◌, inl, inr, Bool, true, false, some, List, [], ◌∷◌,
  ◌==◌, arith, length, get_or, take, All,
}
use native.Mathlib.Decide.{ℕ_discrete}
use network_programming_c.StopAndWait.Bytes.{ntohll}
use network_programming_c.StopAndWait.Packets.{Packet}
use network_programming_c.StopAndWait.Server.{
  Server, exits, returns, receive, fresh_server, put, write_at, serve_connection,
}
use network_programming_c.StopAndWait.Server.Files.{length-put, get_or-put}

-- The server after packets that are dropped (`true`) or served, in the order in which they come.
unfoldable pub serve_all : List (Bool × Packet) → Server → Server
serve_all [] s = s
serve_all ((drop, p) ∷ ds) s = elim (serve_connection (some p) drop true s) [
  | exits ↦ s
  | returns s' q l ↦ serve_all ds s'
]

-- From `p` on, the content is these bytes.
abbrev pub Slice : List ℕ → ℕ → List ℕ → Type 0
Slice content p [] = Unit
Slice content p (b ∷ bs) =
    (p < length content) × (b ≡ get_or content p 0) × Slice content (suc p) bs

-- The bytes that a packet has for the file.
abbrev pub bytes : Packet → List ℕ
bytes p = take (ntohll p.header.size) p.payload

abbrev pub IsSlice : List ℕ → Packet → Type 0
IsSlice content p =
    ((p.header.is_last == 1) ≡ false) × Slice content (ntohll p.header.seq_no) (bytes p)

-- Some packet that was served has the byte at `i`.
abbrev pub Covered : List (Bool × Packet) → ℕ → Type 0
Covered [] i = ⊥
Covered ((drop, p) ∷ ds) i =
    ((drop ≡ false)
      × (ntohll p.header.seq_no ≤ i)
      × (i < ntohll p.header.seq_no + length (bytes p)))
    ⊎ Covered ds i

-- The file has the byte at `i`, and it is the right one.
abbrev pub Right : List ℕ → List ℕ → ℕ → Type 0
Right content f i = (i < length f) × (get_or f i 0 ≡ get_or content i 0)

module _ (content : List ℕ) where
  put-Right :
      (f : List ℕ) (p b i : ℕ)
      → b ≡ get_or content p 0
      → (i ≡ p) ⊎ Right content f i
      → Right content (put f p b) i
  put-Right f p b i e (inl h) = ground (arith, length-put f p b, get_or-put f p b i)
  put-Right f p b i e (inr h) = elim (ℕ_discrete i p) [
    | yes same ↦ ground (arith, length-put f p b, get_or-put f p b i)
    | no other ↦ ground (arith, length-put f p b, get_or-put f p b i)
  ]

  pub write_at-Right :
      (f : List ℕ) (p i : ℕ) (bs : List ℕ)
      → Slice content p bs
      → ((p ≤ i) × (i < p + length bs)) ⊎ Right content f i
      → Right content (write_at f p bs) i
  unfolding write_at
  write_at-Right f p i [] s (inl h) = absurd (omega arith)
  write_at-Right f p i [] s (inr h) = h
  write_at-Right f p i (b ∷ bs) s (inr h) =
      write_at-Right (put f p b) (suc p) i bs s.2 (inr (put-Right f p b i s.1 (inr h)))
  write_at-Right f p i (b ∷ bs) s (inl h) =
      write_at-Right (put f p b) (suc p) i bs s.2 (elim (ℕ_discrete i p) [
        | yes e ↦ inr (put-Right f p b i s.1 (inl e))
        | no ne ↦ inl (omega arith, omega arith)
      ])

  pub length-write_at :
      (f : List ℕ) (p : ℕ) (bs : List ℕ)
      → Slice content p bs
      → length f ≤ length content
      → length (write_at f p bs) ≤ length content
  unfolding write_at
  length-write_at f p [] s h = h
  length-write_at f p (b ∷ bs) s h =
      length-write_at (put f p b) (suc p) bs s.2 (omega (arith, length-put f p b, s.0))

  -- A file that has every byte right, and no more of them, is the content.
  pub ext :
      (f c : List ℕ)
      → length f ≤ length c
      → ((i : ℕ) → i < length c → (i < length f) × (get_or f i 0 ≡ get_or c i 0))
      → f ≡ c
  ext [] [] h r = refl
  ext [] (y ∷ c) h r = absurd (omega (arith, (r 0 (omega arith)).0))
  ext (x ∷ f) [] h r = absurd (omega arith)
  ext (x ∷ f) (y ∷ c) h r =
      ap₂ ◌∷◌ ((r 0 (omega arith)).1)
        (ext f c (omega arith) (λ i k. let (a, b) = r (suc i) (omega arith) in (omega arith, b)))

  file-receive :
      (p : Packet) (s : Server)
      → IsSlice content p
      → (receive p s).file ≡ write_at s.file (ntohll p.header.seq_no) (bytes p)
  unfolding receive
  file-receive p s h = rw (h.0)

  serve_all-Right :
      (ds : List (Bool × Packet)) (s : Server)
      → All (λ d. IsSlice content d.1) ds
      → length s.file ≤ length content
      → (length (serve_all ds s).file ≤ length content)
        × ((i : ℕ) → Covered ds i ⊎ Right content s.file i → Right content (serve_all ds s).file i)
  unfolding serve_all serve_connection
  serve_all-Right [] s a h = (h, λ i. elim [ inl no_packet ↦ absurd no_packet | inr r ↦ r ])
  serve_all-Right ((true, p) ∷ ds) s a h =
      let (len, rest) = serve_all-Right ds s a.1 h in
      (
        len,
        λ i. elim [
          | inl (inl (e, lo, hi)) ↦ cc
          | inl (inr cov) ↦ rest i (inl cov)
          | inr r ↦ rest i (inr r)
        ],
      )
  serve_all-Right ((false, p) ∷ ds) s a h =
      let wrote = file-receive p s a.0 in
      let at = ntohll p.header.seq_no in
      let (len, rest) =
        serve_all-Right ds (receive p s) a.1
          (rw wrote (length-write_at s.file at (bytes p) (a.0).1 h)) in
      (
        len,
        λ i. elim [
          | inl (inl (e, lo, hi)) ↦
              rest i (inr (rw wrote (write_at-Right s.file at i (bytes p) (a.0).1 (inl (lo, hi)))))
          | inl (inr cov) ↦ rest i (inl cov)
          | inr r ↦ rest i (inr (rw wrote (write_at-Right s.file at i (bytes p) (a.0).1 (inr r))))
        ],
      )

-- Packets that are slices of a content, in any order, with any duplicates and with any of them
-- dropped, leave exactly the content in the file of the server, as soon as each byte of the content
-- is in a packet that was served.
pub serve_all-content :
    (content : List ℕ) (ds : List (Bool × Packet))
    → All (λ d. IsSlice content d.1) ds
    → ((i : ℕ) → i < length content → Covered ds i)
    → (serve_all ds fresh_server).file ≡ content
unfolding fresh_server
serve_all-content content ds a cover =
    let (len, right) = serve_all-Right content ds fresh_server a (omega arith) in
    ext content (serve_all ds fresh_server).file content len (λ i k. right i (inl (cover i k)))
