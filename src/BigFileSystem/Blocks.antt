-- ===== src/BigFileSystem/Blocks.antt =====
-- BigFileSystem/filenameserver.c and dataserver.c: the inodes of `init_inode_readonly`. The macro
-- `BLOCK_SIZE` is `10*1024` without parentheses, which is written out here. `fstat` and `open`
-- succeed.
pub mod Inodes
use network_programming_c.Prelude.{
  ℕ, zero, suc, ◌+◌, ◌-◌, ◌*◌, ◌/◌, ◌%◌, ◌^◌, Option, none, some, ◌>>=◌, List, [], ◌∷◌, ◌++◌,
  length, take, drop, ltb, leb, ◌==◌, if◌then◌else◌,
}
use network_programming_c.BigFileSystem.{hash}

abbrev pub num_servers : ℕ
num_servers = 2

-- `x / BLOCK_SIZE`.
abbrev pub per_block : ℕ → ℕ
per_block x = x / 10 * 1024

-- Behind the last `int`. A sum or product that reaches it is `none`.
abbrev pub int_end : ℕ
int_end = 2 ^ 31

-- The loop that fills `head`, from the entry behind those that are filled. `none` is a write behind
-- the array. An inode is its id.
unfoldable pub fill_head : ℕ → List ℕ → ℕ → Option (List ℕ)
fill_head zero head hash_id = some head
fill_head (suc i) head hash_id =
    let rest = fill_head i (head ++ hash_id ∷ []) hash_id in
    if ltb (length head) num_servers then rest else none

-- What stands before the inodes only prints.
unfoldable pub init_inode_readonly : ℕ → List ℕ → Option (List ℕ)
unfolding fill_head
init_inode_readonly file_size filename =
    let total_blocks : ℕ = per_block file_size + 1 in
    if ltb total_blocks int_end
    then fill_head (total_blocks / num_servers + 1) [] (hash filename)
    else none
