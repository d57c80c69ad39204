-- ===== src/AwsAuthV4/Request/Document.antt =====
-- The hash is that of the canonical request as one document.
use ats_plugin_experiment.Base.{
  Bool, true, List, [], ◌∷◌, ◌++◌, append_assoc, append-nil, Bytes, codes, ◌≡◌, refl, sym, ap, ◌∙◌,
}
use ats_plugin_experiment.Containers.StringSet.{StringSet}
use ats_plugin_experiment.Containers.StringMap.{StringMap, index}
use ats_plugin_experiment.AwsAuthV4.Sodium.{Sodium, concat, updates}
use ats_plugin_experiment.AwsAuthV4.Encode.{base16_encode, canonical_encode}
use ats_plugin_experiment.AwsAuthV4.Query.{canonical_query}
use ats_plugin_experiment.AwsAuthV4.Headers.{add_fields, no_headers, header_chunks, append_names}
use ats_plugin_experiment.AwsAuthV4.Headers.Order.{signed_names}
use ats_plugin_experiment.AwsAuthV4.Request.{
  TsInterface, request_path, get_payload_sha256, get_canonical_request_sha256_hash,
}

updates-append {ℓ} :
    {S : Type ℓ} (update : S → Bytes → S) (s : S) (cs ds : List Bytes)
    → updates update s (cs ++ ds) ≡ updates update (updates update s cs) ds
updates-append update s [] ds = refl
updates-append update s (c ∷ cs) ds = updates-append update (update s c) cs ds

concat-append : (cs ds : List Bytes) → concat (cs ++ ds) ≡ concat cs ++ concat ds
concat-append [] ds = refl
concat-append (c ∷ cs) ds =
    ap (λ t. c ++ t) (concat-append cs ds) ∙ sym (append_assoc c (concat cs) (concat ds))

-- The lines "name:value" of the signed headers.
unfoldable pub header_lines : StringMap → StringSet → Bytes
header_lines values [] = []
header_lines values (name ∷ names) =
    name ++ (codes ":" ++ (index values name ++ (codes "\n" ++ header_lines values names)))

pub concat-header_chunks :
    (m : StringMap) (names : StringSet) → concat (header_chunks m names) ≡ header_lines m names
unfolding header_chunks header_lines
concat-header_chunks m [] = refl
concat-header_chunks m (name ∷ names) =
    ap (λ t. name ++ (codes ":" ++ (index m name ++ (codes "\n" ++ t))))
      (concat-header_chunks m names)

module _ (sodium : Sodium) where
  open sodium use {sha256, sha256_init, sha256_update, sha256_final, sha256_in_parts}

  -- The canonical request: six parts, each on lines of its own, made by the code's encoders and
  -- collectors.
  unfoldable pub canonical_request : TsInterface → Bool → StringSet → StringSet → Bytes
  canonical_request api sign_payload inc exc =
      let sh = add_fields inc exc no_headers api.headers in
      api.method
      ++ (codes "\n"
          ++ (canonical_encode (request_path api) true
              ++ (codes "\n"
                  ++ (canonical_query api.query
                      ++ (codes "\n"
                          ++ (header_lines sh.values sh.names
                              ++ (codes "\n"
                                  ++ (append_names [] sh.names
                                      ++ (codes "\n"
                                          ++ get_payload_sha256 sodium sign_payload)))))))))

  -- The pieces that are hashed, in order.
  request_chunks : TsInterface → Bool → StringSet → StringSet → List Bytes
  request_chunks api sign_payload inc exc =
      let sh = add_fields inc exc no_headers api.headers in
      api.method
      ∷ codes "\n"
      ∷ canonical_encode (request_path api) true
      ∷ codes "\n"
      ∷ canonical_query api.query
      ∷ codes "\n"
      ∷ (header_chunks sh.values sh.names
          ++ (codes "\n"
              ∷ append_names [] sh.names
              ∷ codes "\n"
              ∷ get_payload_sha256 sodium sign_payload
              ∷ []))

  concat-request_chunks :
      (api : TsInterface) (sign_payload : Bool) (inc exc : StringSet)
      → concat (request_chunks api sign_payload inc exc)
        ≡ canonical_request api sign_payload inc exc
  unfolding request_chunks canonical_request
  concat-request_chunks api sign_payload inc exc =
      let sh = add_fields inc exc no_headers api.headers in
      let rest =
        codes "\n"
        ∷ append_names [] sh.names
        ∷ codes "\n"
        ∷ get_payload_sha256 sodium sign_payload
        ∷ [] in
      ap
        (λ t.
          api.method
          ++ (codes "\n"
              ++ (canonical_encode (request_path api) true
                  ++ (codes "\n" ++ (canonical_query api.query ++ (codes "\n" ++ t))))))
        (concat-append (header_chunks sh.values sh.names) rest
          ∙ ap (λ t. t ++ concat rest) (concat-header_chunks sh.values sh.names)
          ∙ ap
              (λ t.
                header_lines sh.values sh.names
                ++ (codes "\n" ++ (append_names [] sh.names ++ (codes "\n" ++ t))))
              (append-nil (get_payload_sha256 sodium sign_payload)))

  hash-request_chunks :
      (api : TsInterface) (sign_payload : Bool) (inc exc : StringSet)
      → get_canonical_request_sha256_hash sodium api sign_payload inc exc [] ≡ (
        base16_encode (
            sha256_final
              (updates sha256_update sha256_init (request_chunks api sign_payload inc exc))),
        signed_names inc exc api.headers,
      )
  unfolding get_canonical_request_sha256_hash request_chunks signed_names
  hash-request_chunks api sign_payload inc exc =
      let sh = add_fields inc exc no_headers api.headers in
      ap (λ s. (base16_encode (sha256_final s), append_names [] sh.names))
        (sym (
          updates-append sha256_update
            (updates sha256_update sha256_init (
              api.method
              ∷ codes "\n"
              ∷ canonical_encode (request_path api) true
              ∷ codes "\n"
              ∷ canonical_query api.query
              ∷ codes "\n"
              ∷ []))
            (header_chunks sh.values sh.names)
            (codes "\n"
              ∷ append_names [] sh.names
              ∷ codes "\n"
              ∷ get_payload_sha256 sodium sign_payload
              ∷ [])))

  -- What is hashed piece by piece is the canonical request, and the list of signed headers is
  -- handed back.
  pub get_canonical_request_sha256_hash_lem :
      (api : TsInterface) (sign_payload : Bool) (inc exc : StringSet)
      → get_canonical_request_sha256_hash sodium api sign_payload inc exc [] ≡ (
        base16_encode (sha256 (canonical_request api sign_payload inc exc)),
        signed_names inc exc api.headers,
      )
  get_canonical_request_sha256_hash_lem api sign_payload inc exc =
      hash-request_chunks api sign_payload inc exc
      ∙ ap (λ h. (base16_encode h, signed_names inc exc api.headers))
          (sha256_in_parts (request_chunks api sign_payload inc exc)
            ∙ ap sha256 (concat-request_chunks api sign_payload inc exc))
