-- ===== src/ObjStoreAuth/Config/Lengths.antt =====
-- The stored lengths are those of the stored strings.
use ats_plugin_experiment.Base.{ℕ, Option, none, some, Bytes, length, ◌≡◌, refl, arith}
use ats_plugin_experiment.ObjStoreAuth.Config.{
  S3Config, new_config, set_secret, set_keyid, set_token, copy_changes_from,
}

-- `strlen`, and 0 for a null pointer.
abbrev pub stored_length : Option Bytes → ℕ
stored_length none = 0
stored_length (some s) = length s

pub record IsSized (c : S3Config) : Type 0 where
  pub secret_sized : c.secret_len ≡ stored_length c.secret
  pub keyid_sized : c.keyid_len ≡ stored_length c.keyid
  pub token_sized : c.token_len ≡ stored_length c.token

pub new_config-IsSized : IsSized new_config
new_config-IsSized = record { secret_sized = refl; keyid_sized = refl; token_sized = refl }

pub set_secret-IsSized : (s : Bytes) (c : S3Config) → IsSized c → IsSized (set_secret s c)
unfolding set_secret
set_secret-IsSized s c h = record {
  secret_sized = refl;
  keyid_sized = h.keyid_sized;
  token_sized = h.token_sized;
}

pub set_keyid-IsSized : (s : Bytes) (c : S3Config) → IsSized c → IsSized (set_keyid s c)
unfolding set_keyid
set_keyid-IsSized s c h = record {
  secret_sized = h.secret_sized;
  keyid_sized = refl;
  token_sized = h.token_sized;
}

pub set_token-IsSized : (s : Bytes) (c : S3Config) → IsSized c → IsSized (set_token s c)
unfolding set_token
set_token-IsSized s c h = record {
  secret_sized = h.secret_sized;
  keyid_sized = h.keyid_sized;
  token_sized = refl;
}

pub copy_changes_from-IsSized :
    (src c : S3Config) → IsSized src → IsSized c → IsSized (copy_changes_from src c)
unfolding copy_changes_from
copy_changes_from-IsSized src c h k = record {
  secret_sized = ground (arith, h.secret_sized, k.secret_sized);
  keyid_sized = ground (arith, h.keyid_sized, k.keyid_sized);
  token_sized = ground (arith, h.token_sized, k.token_sized);
}
