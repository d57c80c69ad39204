-- ===== src/AwsAuthV4/Sodium.antt =====
-- The functions of libsodium that src/obj_store_auth/aws_auth_v4.cc calls, with their documented
-- behaviour: hashing in parts is hashing the concatenation, a digest has 32 bytes.
use ats_plugin_experiment.Base.{List, [], ◌∷◌, ◌++◌, Bytes, length, ◌≡◌}

-- The pieces of a message, joined.
abbrev pub concat : List Bytes → Bytes
concat [] = []
concat (c ∷ cs) = c ++ concat cs

-- One `update` for each piece.
abbrev pub updates {ℓ} : {S : Type ℓ} → (S → Bytes → S) → S → List Bytes → S
updates update s [] = s
updates update s (c ∷ cs) = updates update (update s c) cs

pub record Sodium : Type 1 where
  pub Sha256State : Type 0
  -- `crypto_hash_sha256_init`, `_update`, `_final`, and the one-shot `crypto_hash_sha256`
  pub sha256_init : Sha256State
  pub sha256_update : Sha256State → Bytes → Sha256State
  pub sha256_final : Sha256State → Bytes
  pub sha256 : Bytes → Bytes
  pub HmacState : Type 0
  -- `crypto_auth_hmacsha256_init` with a key, `_update`, `_final`, and HMAC-SHA256 itself
  pub hmac_init : Bytes → HmacState
  pub hmac_update : HmacState → Bytes → HmacState
  pub hmac_final : HmacState → Bytes
  pub hmac : Bytes → Bytes → Bytes
  pub sha256_in_parts :
      (chunks : List Bytes)
      → sha256_final (updates sha256_update sha256_init chunks) ≡ sha256 (concat chunks)
  pub hmac_in_one_part :
      (key message : Bytes) → hmac_final (hmac_update (hmac_init key) message) ≡ hmac key message
  pub hmac_length : (key message : Bytes) → length (hmac key message) ≡ 32
