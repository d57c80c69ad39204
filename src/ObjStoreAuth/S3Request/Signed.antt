-- ===== src/ObjStoreAuth/S3Request/Signed.antt =====
-- What it takes for a request to be let through.
use ats_plugin_experiment.Base.{
  ℕ, Bool, true, false, Option, none, some, Bytes, codes, is_empty, int_eq, ◌≡◌, inl, inr, refl,
  sym, ◌∙◌, arith, Bool-cases, Option-cases,
}
use ats_plugin_experiment.AwsAuthV4.Sodium.{Sodium}
use ats_plugin_experiment.AwsAuthV4.Authorization.{
  AwsAuthV4, get_payload_hash, get_authorization_header,
}
use ats_plugin_experiment.ObjStoreAuth.Config.{S3Config}
use ats_plugin_experiment.ObjStoreAuth.Credentials.{parse_user_config}
use ats_plugin_experiment.ObjStoreAuth.S3Request.{
  Mime, HttpStatus, ok, set_header, then_set, set_token_header, auth_of, set_authorization,
  sign_request, authorize_v4, authorize,
}

module _ {H L : Type 0} (mime : Mime H L) where
  -- A chain that ends well has set its header.
  then_set-ok :
      (o : Option (H × Bool)) (next : H → Option (H × HttpStatus)) (g : H)
      → then_set mime o next ≡ some (g, ok)
      → (h : H) × (o ≡ some (h, true)) × (next h ≡ some (g, ok))
  then_set-ok none next g e = absurd (cc e)
  then_set-ok (some (h, false)) next g e = absurd (cc e)
  then_set-ok (some (h, true)) next g e = (h, refl, e)

  module _ (sodium : Sodium) (rounds : ℕ) (date_time : Bytes) (s3 : S3Config) where
    -- From the request's header `h` to `g`, with the keys of the rule's user: the hash of the payload,
    -- the date and the session token are set, and then the Authorization header that signs the
    -- header with those in it.
    pub record IsSigned (access_key secret_key : Bytes) (h g : H) : Type 0 where
      pub hashed : H
      pub dated : H
      pub tokened : H
      pub value : Bytes
      pub hash_set :
          set_header mime rounds
            (codes "x-amz-content-sha256")
            (get_payload_hash sodium (auth_of mime date_time s3 access_key secret_key h))
            h
          ≡ some (hashed, true)
      pub date_set :
          set_header mime rounds (codes "x-amz-date") date_time hashed ≡ some (dated, true)
      pub token_set : set_token_header mime rounds s3 dated ≡ some (tokened, true)
      pub value_is :
          get_authorization_header sodium rounds
            (auth_of mime date_time s3 access_key secret_key tokened)
          ≡ some value
      pub value_set : set_header mime rounds (codes "Authorization") value tokened ≡ some (g, true)

    pub record IsLetThrough (stored : Option Bytes) (h g : H) : Type 0 where
      pub version_4 : int_eq s3.version 4 ≡ true
      pub user_config : Bytes
      pub access_key : Bytes
      pub secret_key : Bytes
      pub found : stored ≡ some user_config
      pub parsed : parse_user_config user_config ≡ some (access_key, secret_key)
      pub signed : IsSigned access_key secret_key h g

    set_authorization_run :
        (auth : AwsAuthV4) (h : H) (value : Bytes)
        → get_authorization_header sodium rounds auth ≡ some value
        → is_empty value ≡ false
        → set_authorization mime sodium rounds auth h
          ≡ then_set mime
              (set_header mime rounds (codes "Authorization") value h)
              (λ k. some (k, ok))
    unfolding set_authorization
    set_authorization_run auth h value n b = ground (arith, n, b)

    authorize_run :
        (user_config access_key secret_key : Bytes) (h : H)
        → int_eq s3.version 4 ≡ true
        → parse_user_config user_config ≡ some (access_key, secret_key)
        → authorize mime sodium rounds date_time (some user_config) true s3 h
          ≡ sign_request mime sodium rounds date_time s3 access_key secret_key h
    unfolding authorize authorize_v4
    authorize_run user_config access_key secret_key h v n = ground (arith, v, n)

    set_authorization-ok :
        (auth : AwsAuthV4) (h g : H)
        → set_authorization mime sodium rounds auth h ≡ some (g, ok)
        → (value : Bytes) × (get_authorization_header sodium rounds auth ≡ some value)
          × (set_header mime rounds (codes "Authorization") value h ≡ some (g, true))
    unfolding set_authorization
    set_authorization-ok auth h g e =
        elim (Option-cases (get_authorization_header sodium rounds auth)) [
          | inl n ↦ absurd (ground (arith, n, e))
          | inr (value, n) ↦ elim (Bool-cases (is_empty value)) [
            | inl b ↦ absurd (ground (arith, n, b, e))
            | inr b ↦
                let rest : then_set mime (set_header mime rounds (codes "Authorization") value h)
                      (λ k. some (k, ok))
                    ≡ some (g, ok) =
                  sym (set_authorization_run auth h value n b) ∙ e in
                let (k, set, last) =
                  then_set-ok (set_header mime rounds (codes "Authorization") value h)
                    (λ k. some (k, ok)) g rest in
                (value, n, cc (set, last))
          ]
        ]

    sign_request-ok :
        (access_key secret_key : Bytes) (h g : H)
        → sign_request mime sodium rounds date_time s3 access_key secret_key h ≡ some (g, ok)
        → IsSigned access_key secret_key h g
    unfolding sign_request
    sign_request-ok access_key secret_key h g e =
        let (h1, hash_set, e1) = then_set-ok _ _ g e in
        let (h2, date_set, e2) = then_set-ok _ _ g e1 in
        let (h3, token_set, e3) = then_set-ok _ _ g e2 in
        let auth = auth_of mime date_time s3 access_key secret_key h3 in
        let (value, value_is, value_set) = set_authorization-ok auth h3 g e3 in
        record {
          hashed = h1;
          dated = h2;
          tokened = h3;
          value = value;
          hash_set = hash_set;
          date_set = date_set;
          token_set = token_set;
          value_is = value_is;
          value_set = value_set;
        }

    -- A request for which `authorize` returns OK has been signed: the configuration is of version 4,
    -- LMDB has a record for the user, the record has its four tabs, and from the keys in it the
    -- payload's hash, the date, the session token if there is one, and last the Authorization header
    -- have been set, each with success. The Authorization header is computed when the other three
    -- are in place.
    pub authorize-ok :
        (stored : Option Bytes) (committed : Bool) (h g : H)
        → authorize mime sodium rounds date_time stored committed s3 h ≡ some (g, ok)
        → IsLetThrough stored h g
    unfolding authorize authorize_v4
    authorize-ok none committed h g e = absurd (ground (arith, e))
    authorize-ok (some user_config) committed h g e = elim (Bool-cases (int_eq s3.version 4)) [
      | inr v ↦ absurd (ground (arith, v, e))
      | inl v ↦ elim (Option-cases (parse_user_config user_config)) [
        | inl n ↦ absurd (ground (arith, v, n, e))
        | inr ((access_key, secret_key), n) ↦ elim (Bool-cases committed) [
          | inr b ↦ absurd (ground (arith, v, n, b, e))
          | inl b ↦
              let run = authorize_run user_config access_key secret_key h v n in
              record {
                version_4 = v;
                user_config = user_config;
                access_key = access_key;
                secret_key = secret_key;
                found = refl;
                parsed = n;
                signed = sign_request-ok access_key secret_key h g (sym run ∙ (rw b at e));
              }
        ]
      ]
    ]
