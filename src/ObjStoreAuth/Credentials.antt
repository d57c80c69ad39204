-- ===== src/ObjStoreAuth/Credentials.antt =====
-- The record of a user's credentials: as src/lmdb_setup/lmdb_setup.cc writes it, and as
-- `S3Request::authorizeV4` of src/obj_store_auth/obj_store_auth.cc takes it apart.
pub mod RoundTrip
use mathlib.Core.Option
use ats_plugin_experiment.Base.{
  ℕ, ◌+◌, ◌-◌, Option, none, some, List, [], ◌∷◌, ◌++◌, ◌≡◌, Bytes, find, take, drop, length,
}
use ats_plugin_experiment.AwsAuthV4.Sodium.{concat}

-- `find(c, pos)` and `substr(pos, len)`.
unfoldable pub find_from : ℕ → ℕ → Bytes → Option ℕ
find_from c at s = Option.map (λ i. at + i) (find c (drop at s))

unfoldable pub substr : ℕ → ℕ → Bytes → Bytes
substr at len s = take len (drop at s)

-- The access key and the secret key; `none` where "invalid LMDB data format" is thrown.
unfoldable pub parse_user_config : Bytes → Option (Bytes × Bytes)
parse_user_config user_config = elim (find_from 9 0 user_config) [
  | none ↦ none
  | some bucket_end ↦ elim (find_from 9 (bucket_end + 1) user_config) [
    | none ↦ none
    | some end_point_end ↦ elim (find_from 9 (end_point_end + 1) user_config) [
      | none ↦ none
      | some region_end ↦ elim (find_from 9 (region_end + 1) user_config) [
        | none ↦ none
        | some access_key_end ↦ some (
          substr (region_end + 1) (access_key_end - (region_end + 1)) user_config,
          drop (access_key_end + 1) user_config,
        )
      ]
    ]
  ]
]

-- `swoc::LocalBufferWriter`, with its documented behaviour: what was written, or an error where it
-- does not fit.
pub record BufferWriter : Type 0 where
  pub written : ℕ → List Bytes → Option Bytes
  pub written-concat :
      (capacity : ℕ) (pieces : List Bytes) (s : Bytes)
      → written capacity pieces ≡ some s
      → s ≡ concat pieces

-- The value of one credential; `none` where the program stops with "buffer too small".
unfoldable pub credential_value :
    BufferWriter → Bytes → Bytes → Bytes → Bytes → Bytes → Option Bytes
credential_value writer bucket endpoint region access_key secret_key =
    let tab = 9 ∷ [] in
    writer.written 1024
      (bucket ∷ tab ∷ endpoint ∷ tab ∷ region ∷ tab ∷ access_key ∷ tab ∷ secret_key ∷ [])
