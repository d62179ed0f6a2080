-- ===== src/StopAndWait/Transfer/Slices.antt =====
-- N-Channel-StopNWait: what the packets of the client carry.
use network_programming_c.Prelude.{
  ℕ, suc, ◌<◌, ◌≡◌, refl, sym, List, [], ◌∷◌, ◌++◌, arith, length, length-append, get_or,
  append_assoc,
}
use network_programming_c.StopAndWait.Chunks.{get_next_chunk}
use network_programming_c.StopAndWait.Chunks.Content.{get_next_chunk-IsChunk}
use network_programming_c.StopAndWait.Server.{Server}
use network_programming_c.StopAndWait.Server.Delivery.{Slice, IsSlice, bytes}
use network_programming_c.StopAndWait.Client.{Client, send_one}
use network_programming_c.StopAndWait.Transfer.Steps.{Inv, text-IsChunk}
use network_programming_c.StopAndWait.Transfer.Rounds.{size_lem, seq_no_lem}

get_or-append : (f t : List ℕ) (b : ℕ) → get_or (f ++ b ∷ t) (length f) 0 ≡ b
get_or-append [] t b = refl
get_or-append (x ∷ f) t b = get_or-append f t b

Slice-append : (f t r : List ℕ) (n : ℕ) → n ≡ length f → Slice (f ++ (t ++ r)) n t
Slice-append f [] r n e = tt
Slice-append f (b ∷ t) r n e = (
  omega (arith, length-append f (b ∷ (t ++ r))),
  rw e (sym (get_or-append f (t ++ r) b)),
  rw (append_assoc f (b ∷ []) (t ++ r)) at
      (Slice-append (f ++ b ∷ []) t r (suc n) (omega (arith, length-append f (b ∷ [])))),
)

-- As long as the file of the server and what the client has not read are together the content, the
-- next packet of the client is a slice of the content, at its place.
pub send_one-IsSlice :
    (size : ℕ) (pos : 0 < size) {content : List ℕ} (i : ℕ) (c : Client) (s : Server)
    → Inv size content c s
    → IsSlice content (send_one size i c).1
unfolding send_one
send_one-IsSlice size pos {content} i c s v =
    let is = get_next_chunk-IsChunk size c.fp pos v.text in
    let carries : bytes (send_one size i c).1 ≡ is.text =
      rw (size_lem size pos c s v i) (text-IsChunk size pos c.fp (get_next_chunk c.fp size) is) in
    (
      refl,
      rw (seq_no_lem size pos c s v i, carries, ← v.file, is.content)
          (Slice-append s.file is.text _ c.seq_no v.at),
    )
