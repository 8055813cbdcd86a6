-- ===== src/Api/WebSocket/Accept/Tests.antt =====
-- The example of RFC 6455.
use matrix_faces.Common.{◌≡◌, refl, some, codes}
use matrix_faces.Digest.Chain.{flush}
use matrix_faces.Digest.Words.{length_bytes}
use matrix_faces.Api.WebSocket.Sha1.{sha1_transform, sha1_update, pad_zeros, emit, sha1_final}
use matrix_faces.Api.WebSocket.Accept.{base64_groups, base64_encode, accept_key}

accept_key_rfc :
    accept_key (codes "dGhlIHNhbXBsZSBub25jZQ==") 30 ≡ some (codes "s3pPLMBiTxaQ9kYGzzhZRbK+xOo=")
unfolding sha1_transform sha1_update pad_zeros emit sha1_final flush length_bytes base64_groups
    base64_encode accept_key
accept_key_rfc = refl
