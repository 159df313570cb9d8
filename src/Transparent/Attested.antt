-- ===== src/Transparent/Attested.antt =====
-- The transparent client and the transparent enclave: a handshake without a TEE.
use kassandra_service.Common.{ℕ, ◌≡◌, refl, List, ◌++◌, length, length-append, replicate}
use kassandra_service.Common.Bytes.{to_le_bytes, length-to_le_bytes}
use kassandra_service.Messages.{Result}
use kassandra_service.Enclave.{report_data}
use kassandra_service.Client.Register.{verify_transparent}
use kassandra_service.Transparent.{get_quote}

-- The client accepts what the enclave gives for its public key of 32 bytes, whatever the nonce.
pub verify_transparent-get_quote :
    (enclave_pk : List ℕ)
    → (nonce : ℕ) → length enclave_pk ≡ 32
    → verify_transparent (get_quote (report_data enclave_pk nonce)) nonce
      ≡ Result.ok (report_data enclave_pk nonce)
unfolding verify_transparent get_quote report_data
verify_transparent-get_quote enclave_pk nonce n =
    let total : length (enclave_pk ++ to_le_bytes 8 nonce ++ replicate 24 0) ≡ 64 =
      rw
        (
          length-append (enclave_pk ++ to_le_bytes 8 nonce) (replicate 24 0),
          length-append enclave_pk (to_le_bytes 8 nonce),
          length-to_le_bytes 8 nonce,
          n,
        )
        refl in
    rw total refl
