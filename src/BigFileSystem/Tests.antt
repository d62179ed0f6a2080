-- ===== src/BigFileSystem/Tests.antt =====
-- A run of the hash of a name.
use network_programming_c.Prelude.{◌≡◌, refl, codes}
use network_programming_c.BigFileSystem.{hash}

hash_test : hash (codes "a") ≡ 177670
unfolding hash
hash_test = refl
