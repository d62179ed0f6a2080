-- ===== src/StopAndWait/Packets.antt =====
-- N-Channel-StopNWait/utils.h: the packet, and the C library's `strncpy` that fills its data.
use network_programming_c.Prelude.{
  ℕ, zero, suc, ◌≡◌, ◌≢◌, refl, ap, List, [], ◌∷◌, ◌++◌, false, ◌==◌, if◌then◌else◌, arith, ◌≤◌,
  length, take, replicate, All,
}

-- `size` and `seq_no` hold what goes over the wire: the bytes in network order.
pub record Header : Type 0 where
  pub size : ℕ
  pub seq_no : ℕ
  pub is_last : ℕ
  pub type : ℕ
  pub channel_id : ℕ

-- `payload` is the field `data`.
pub record Packet : Type 0 where
  pub header : Header
  pub payload : List ℕ

abbrev pub header : ℕ → ℕ → ℕ → ℕ → ℕ → Header
header size seq_no is_last type channel_id = record {
  size = size;
  seq_no = seq_no;
  is_last = is_last;
  type = type;
  channel_id = channel_id;
}

-- At most `n` bytes, up to the first zero, and zeros after it. The buffers always hold a zero or
-- `n` bytes, so the case of a shorter one is not reached.
unfoldable pub strncpy : ℕ → List ℕ → List ℕ
strncpy zero s = []
strncpy (suc n) [] = replicate (suc n) 0
strncpy (suc n) (c ∷ s) = if c == 0 then replicate (suc n) 0 else c ∷ strncpy n s

-- The bytes hold no zero, as text does.
abbrev pub NonZero : List ℕ → Type 0
NonZero = All (λ c. c ≢ 0)

-- A text of at most `n` bytes with a zero behind it is copied whole, with zeros after it.
pub strncpy_text :
    (n : ℕ) (s t : List ℕ) → NonZero s → length s ≤ n → take (length s) (strncpy n (s ++ 0 ∷ t)) ≡ s
unfolding strncpy
strncpy_text n [] t h k = refl
strncpy_text zero (c ∷ s) t h k = absurd (omega arith)
strncpy_text (suc n) (c ∷ s) t h k =
    let e : (c == 0) ≡ false = ground arith in
    rw (e, strncpy) (ap (λ l. c ∷ l) (strncpy_text n s t h.1 (omega arith)))
