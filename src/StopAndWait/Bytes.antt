-- ===== src/StopAndWait/Bytes.antt =====
-- N-Channel-StopNWait/utils.h: the macros `htonll` and `ntohll`, on a little-endian host.
use network_programming_c.Prelude.{
  ℕ, ◌+◌, ◌*◌, ◌/◌, ◌%◌, ◌^◌, ◌<◌, ◌≡◌, ◌==◌, if◌then◌else◌, ap, ap₂, ◌∙◌, arith,
}

-- `htonl` and `ntohl` of the C library on a little-endian host: the four bytes in reverse order.
abbrev pub htonl : ℕ → ℕ
htonl x =
    x % 0x100 * 0x1000000
    + x / 0x100 % 0x100 * 0x10000
    + x / 0x10000 % 0x100 * 0x100
    + x / 0x1000000 % 0x100

-- The two halves are disjoint, so the bitwise or is a sum.
unfoldable pub htonll : ℕ → ℕ
htonll x =
    if 1 == htonl 1
    then x
    else htonl (x % 0x100000000) * 0x100000000 + htonl (x / 0x100000000 % 0x100000000)

-- The same text as `htonll`, with `ntohl`.
unfoldable pub ntohll : ℕ → ℕ
ntohll x =
    if 1 == htonl 1
    then x
    else htonl (x % 0x100000000) * 0x100000000 + htonl (x / 0x100000000 % 0x100000000)

htonl-htonl : (x : ℕ) → x < 0x100000000 → htonl (htonl x) ≡ x
htonl-htonl x h = omega arith

htonl-lt : (x : ℕ) → htonl x < 0x100000000
htonl-lt x = omega arith

join : ℕ → ℕ → ℕ
join hi lo = hi * 0x100000000 + lo

join_halves : (x : ℕ) → join (x / 0x100000000) (x % 0x100000000) ≡ x
unfolding join
join_halves x = omega arith

low-join : (hi lo : ℕ) → lo < 0x100000000 → join hi lo % 0x100000000 ≡ lo
unfolding join
low-join hi lo h = omega arith

high-join :
    (hi lo : ℕ) → hi < 0x100000000 → lo < 0x100000000 → join hi lo / 0x100000000 % 0x100000000 ≡ hi
unfolding join
high-join hi lo h k = omega arith

-- A number below 2^64 comes back from network byte order as it went in.
pub ntohll-htonll : (x : ℕ) → x < 2 ^ 64 → ntohll (htonll x) ≡ x
unfolding htonll ntohll join
ntohll-htonll x h =
    ap₂ join
      (ap htonl (low-join (htonl lo) (htonl hi) (htonl-lt hi)) ∙ htonl-htonl hi (omega arith))
      (ap htonl (high-join (htonl lo) (htonl hi) (htonl-lt lo) (htonl-lt hi))
        ∙ htonl-htonl lo (omega arith))
    ∙ (ap (λ t. join t lo) (omega arith) ∙ join_halves x)
  where
    lo : ℕ
    lo = x % 0x100000000

    hi : ℕ
    hi = x / 0x100000000 % 0x100000000
