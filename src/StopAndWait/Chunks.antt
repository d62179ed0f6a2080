-- ===== src/StopAndWait/Chunks.antt =====
-- N-Channel-StopNWait/utils.h: `get_next_chunk`, which reads the input file chunk by chunk.
pub mod Content
use network_programming_c.Prelude.{
  ℕ, ◌-◌, Bool, true, false, List, [], ◌∷◌, ◌++◌, ltb, if◌then◌else◌, length, set, take, drop,
}

-- What one call leaves: the part of `buffer` that it wrote, whether it set `*is_eof`,
-- `*payload_size` and the part of the file that is not read yet.
pub record Chunk : Type 0 where
  pub buffer : List ℕ
  pub eof : Bool
  pub payload_size : ℕ
  pub rest : List ℕ

-- `fp` is the part of the file after its position. `fread` reads `chunk_size` bytes, or all that
-- are left.
unfoldable pub get_next_chunk : List ℕ → ℕ → Chunk
get_next_chunk fp chunk_size =
    if ltb ret chunk_size
    then record {
      buffer = if ltb 0 ret then set buffer (ret - 1) 0 else buffer;
      eof = true;
      payload_size = if ltb 0 ret then ret - 1 else ret;
      rest = drop chunk_size fp;
    }
    else record { buffer = buffer; eof = false; payload_size = ret; rest = drop chunk_size fp }
  where
    ret : ℕ
    ret = length (take chunk_size fp)

    buffer : List ℕ
    buffer = take chunk_size fp ++ 0 ∷ []
