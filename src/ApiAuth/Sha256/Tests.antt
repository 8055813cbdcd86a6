-- ===== src/ApiAuth/Sha256/Tests.antt =====
-- Known digests.
use matrix_faces.Common.{◌≡◌, refl, codes}
use matrix_faces.ApiAuth.Hex.{to_hex}
use matrix_faces.ApiAuth.Sha256.{hash, finish, zero_pad, emit, update, update_loop, compress}
use matrix_faces.Digest.Chain.{flush}
use matrix_faces.Digest.Words.{length_bytes}

hash_abc :
    to_hex (hash (codes "abc"))
    ≡ codes "ba7816bf8f01cfea414140de5dae2223b00361a396177a9cb410ff61f20015ad"
unfolding hash finish zero_pad emit update update_loop flush compress length_bytes to_hex
hash_abc = refl
