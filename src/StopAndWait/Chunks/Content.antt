-- ===== src/StopAndWait/Chunks/Content.antt =====
-- N-Channel-StopNWait/utils.h: what the chunks of a file hold together.
use network_programming_c.Prelude.{
  ℕ, zero, suc, ◌+◌, ◌-◌, ◌%◌, ◌≤◌, ◌<◌, ◌≡◌, refl, sym, ap, ◌∙◌, inl, inr, Bool-cases, true, false,
  List, [], ◌∷◌, ◌++◌, ltb, ◌==◌, if◌then◌else◌, append-nil, arith, length, length-take,
  take-append-drop, length-drop, take_all, drop_all, set, take, drop,
}
use native.Mathlib.Nat.{mod-eq_of_lt}
use native.Mathlib.Decide.{dec_lt}
use network_programming_c.StopAndWait.Packets.{NonZero}
use network_programming_c.StopAndWait.Chunks.{Chunk, get_next_chunk}

-- The file without its last byte, if its length is no multiple of the chunk size.
abbrev pub trim : ℕ → List ℕ → List ℕ
trim size r = if length r % size == 0 then r else take (length r - 1) r

pub take-nil : (n : ℕ) → take {A = ℕ} n [] ≡ []
take-nil zero = refl
take-nil (suc n) = refl

pub trim-nil : (size : ℕ) → trim size [] ≡ []
trim-nil size = ground arith

take-add : (a b : ℕ) (r : List ℕ) → take (a + b) r ≡ take a r ++ take b (drop a r)
take-add zero b r = ap (λ n. take n r) (omega arith)
take-add (suc a) b [] = take-nil (suc a + b) ∙ sym (take-nil b)
take-add (suc a) b (x ∷ r) =
    let e : suc a + b ≡ suc (a + b) = omega arith in
    ap (λ n. take n (x ∷ r)) e ∙ ap (λ l. x ∷ l) (take-add a b r)

set-last : (r z : List ℕ) (n : ℕ) → length r ≡ suc n → set (r ++ z) n 0 ≡ take n r ++ 0 ∷ z
set-last [] z n e = absurd (omega arith)
set-last (x ∷ []) z zero e = refl
set-last (x ∷ y ∷ r) z zero e = absurd (omega arith)
set-last (x ∷ r) z (suc n) e = ap (λ l. x ∷ l) (set-last r z n (omega arith))

module _ (size : ℕ) (pos : 0 < size) where
  mod_less : (n : ℕ) → size ≤ n → (n - size) % size ≡ n % size
  mod_less n h = grind arith

  same_test :
      (r : List ℕ) → size ≤ length r → (length (drop size r) % size == 0) ≡ (length r % size == 0)
  same_test r h = ap (λ n. n == 0) (ap (λ n. n % size) (length-drop size r) ∙ mod_less (length r) h)

  zero_mod : (r : List ℕ) → size ≤ length r → length r ≡ size → length r % size ≡ 0
  zero_mod r h e = grind arith

  pub trim-full :
      (r : List ℕ) → size ≤ length r → trim size r ≡ take size r ++ trim size (drop size r)
  trim-full r h = elim (Bool-cases (length r % size == 0)) [
    | inl e ↦ rw (e, same_test r h ∙ e) (sym (take-append-drop size r))
    | inr e ↦
        rw (e, same_test r h ∙ e, length-drop size r)
          (let more : length r - 1 ≡ size + (length r - size - 1) = ground (arith, zero_mod r h) in
            rw more (take-add size (length r - size - 1) r))
  ]

  pub trim-part : (r : List ℕ) → length r < size → trim size r ≡ take (length r - 1) r
  trim-part [] h = ground arith
  trim-part (x ∷ r) h =
      let e : (suc (length r) % size == 0) ≡ false = ground (arith, mod-eq_of_lt h) in rw e

  -- How many bytes the next packet carries.
  abbrev pub carried : List ℕ → ℕ
  carried r = (get_next_chunk r size).payload_size

  pub carried-full :
      (r : List ℕ)
      → size ≤ length r
      → get_next_chunk r size ≡ record {
        buffer = take size r ++ 0 ∷ [];
        eof = false;
        payload_size = size;
        rest = drop size r;
      }
  unfolding get_next_chunk
  carried-full r h =
      let e : length (take size r) ≡ size = omega (arith, length-take size r) in
      let f : ltb size size ≡ false = ground arith in rw (e, f)

  pub carried-part :
      (r : List ℕ)
      → length r < size
      → 0 < length r
      → get_next_chunk r size ≡ record {
        buffer = take (length r - 1) r ++ 0 ∷ 0 ∷ [];
        eof = true;
        payload_size = length r - 1;
        rest = [];
      }
  unfolding get_next_chunk
  carried-part r h k =
      let f : ltb (length r) size ≡ true = ground arith in
      let g : ltb 0 (length r) ≡ true = ground arith in
      rw (
        take_all size r (omega arith),
        drop_all size r (omega arith),
        f,
        g,
        set-last r (0 ∷ []) (length r - 1) (omega arith),
      )

  pub carried-none :
      get_next_chunk [] size ≡ record { buffer = 0 ∷ []; eof = true; payload_size = 0; rest = [] }
  unfolding get_next_chunk
  carried-none = rw (take-nil size) (ground (arith, drop_all {A = ℕ} size []))

  -- A short chunk is the last one.
  pub chunk_short :
      (r : List ℕ)
      → length r < size
      → ((get_next_chunk r size).rest ≡ []) × ((get_next_chunk r size).eof ≡ true)
  chunk_short [] h = rw carried-none (refl, refl)
  chunk_short (x ∷ r) h = rw (carried-part (x ∷ r) h (omega arith)) (refl, refl)

take-NonZero : (n : ℕ) (r : List ℕ) → NonZero r → NonZero (take n r)
take-NonZero zero r h = tt
take-NonZero (suc n) [] h = tt
take-NonZero (suc n) (x ∷ r) h = (h.0, take-NonZero n r h.1)

drop-NonZero : (n : ℕ) (r : List ℕ) → NonZero r → NonZero (drop n r)
drop-NonZero zero r h = h
drop-NonZero (suc n) [] h = tt
drop-NonZero (suc n) (x ∷ r) h = drop-NonZero n r h.1

-- A chunk holds a text and a zero behind it, and the file is that text and what is left.
pub record IsChunk (size : ℕ) (r : List ℕ) (ch : Chunk) : Type 0 where
  pub text : List ℕ
  pub junk : List ℕ
  pub buffer : ch.buffer ≡ text ++ 0 ∷ junk
  pub count : ch.payload_size ≡ length text
  pub fits : length text ≤ size
  pub content : trim size r ≡ text ++ trim size ch.rest
  pub text_text : NonZero text
  pub rest_text : NonZero ch.rest
  pub shorter : length text + length ch.rest ≤ length r

-- A chunk of a text (no byte is zero), for a chunk size that is not 0: the buffer holds some of its
-- bytes and a zero behind them, no more than the chunk size, `payload_size` is their number, and
-- they are what the transfer keeps of the text, up to what it keeps of the rest. The rest is
-- shorter by their number at least.
pub get_next_chunk-IsChunk :
    (size : ℕ) (r : List ℕ) → 0 < size → NonZero r → IsChunk size r (get_next_chunk r size)
get_next_chunk-IsChunk size r pos h = elim (dec_lt (length r) size) [
  | no full ↦ rw (carried-full size pos r (omega arith)) (record {
    text = take size r;
    junk = [];
    buffer = refl;
    count = omega (arith, length-take size r);
    fits = omega (arith, length-take size r);
    content = trim-full size pos r (omega arith);
    text_text = take-NonZero size r h;
    rest_text = drop-NonZero size r h;
    shorter = omega (arith, length-take size r, length-drop size r);
  })
  | yes part ↦ short r h part
]
  where
    short : (q : List ℕ) → NonZero q → length q < size → IsChunk size q (get_next_chunk q size)
    short [] k part = rw (carried-none size pos) (record {
      text = [];
      junk = [];
      buffer = refl;
      count = refl;
      fits = omega arith;
      content = refl;
      text_text = tt;
      rest_text = tt;
      shorter = omega arith;
    })
    short (x ∷ q) k part = rw (carried-part size pos (x ∷ q) part (omega arith)) (record {
      text = take (suc (length q) - 1) (x ∷ q);
      junk = 0 ∷ [];
      buffer = refl;
      count = omega (arith, length-take (suc (length q) - 1) (x ∷ q));
      fits = omega (arith, length-take (suc (length q) - 1) (x ∷ q));
      content = trim-part size pos (x ∷ q) part ∙ (rw (trim-nil size, append-nil));
      text_text = take-NonZero (suc (length q) - 1) (x ∷ q) k;
      rest_text = tt;
      shorter = omega (arith, length-take (suc (length q) - 1) (x ∷ q));
    })
