-- ===== src/ObjStoreAuth/ConfigFile/Lines.antt =====
-- Parsing a configuration file keeps the stored lengths those of the stored strings.
use ats_plugin_experiment.Base.{
  Bool, true, false, ◌||◌, List, [], ◌∷◌, Bytes, codes, bytes_eq, is_empty, getlines, ◌≡◌, inl, inr,
  refl, sym, ap, ◌∙◌, if◌then◌else◌, Bool-cases, Option-cases,
}
use ats_plugin_experiment.ObjStoreAuth.Files.{Files, c_str}
use ats_plugin_experiment.ObjStoreAuth.Config.{
  S3Config, set_secret, set_keyid, set_token, set_virt_host, set_version, set_include_headers,
  set_exclude_headers, set_region_map, set_expiration,
}
use ats_plugin_experiment.ObjStoreAuth.Config.Lengths.{
  stored_length, IsSized, set_secret-IsSized, set_keyid-IsSized, set_token-IsSized,
}
use ats_plugin_experiment.ObjStoreAuth.ConfigFile.{
  TextView, apply_key, is_comment, apply_line, apply_lines, parse_config,
}

IsSized-if : (b : Bool) (c d : S3Config) → IsSized c → IsSized d → IsSized (if b then c else d)
IsSized-if true c d h k = h
IsSized-if false c d h k = k

-- The same lengths and strings as in a sized configuration.
pub IsSized-same :
    (c d : S3Config)
    → IsSized c
    → (d.secret ≡ c.secret)
      × (d.secret_len ≡ c.secret_len)
      × (d.keyid ≡ c.keyid)
      × (d.keyid_len ≡ c.keyid_len)
      × (d.token ≡ c.token)
      × (d.token_len ≡ c.token_len)
    → IsSized d
IsSized-same c d h (s, sl, k, kl, t, tl) = record {
  secret_sized = sl ∙ h.secret_sized ∙ ap stored_length (sym s);
  keyid_sized = kl ∙ h.keyid_sized ∙ ap stored_length (sym k);
  token_sized = tl ∙ h.token_sized ∙ ap stored_length (sym t);
}

pub apply_key-IsSized :
    (files : Files) (key value : Bytes) (c : S3Config)
    → IsSized c
    → IsSized (apply_key files key value c)
unfolding apply_key set_virt_host set_version set_include_headers set_exclude_headers set_region_map
    set_expiration
apply_key-IsSized files key value c h =
    let v = c_str value in
    let t9 = if bytes_eq key (codes "expiration") then set_expiration v c else c in
    let h9 : IsSized t9 =
      IsSized-if (bytes_eq key (codes "expiration")) (set_expiration v c) c
        (IsSized-same c (set_expiration v c) h (refl, refl, refl, refl, refl, refl)) h in
    let t8 = if bytes_eq key (codes "v4-region-map") then set_region_map files v c else t9 in
    let h8 : IsSized t8 =
      IsSized-if (bytes_eq key (codes "v4-region-map")) (set_region_map files v c) t9
        (IsSized-same c (set_region_map files v c) h (refl, refl, refl, refl, refl, refl)) h9 in
    let t7 = if bytes_eq key (codes "v4-exclude-headers") then set_exclude_headers v c else t8 in
    let h7 : IsSized t7 =
      IsSized-if (bytes_eq key (codes "v4-exclude-headers")) (set_exclude_headers v c) t8
        (IsSized-same c (set_exclude_headers v c) h (refl, refl, refl, refl, refl, refl)) h8 in
    let t6 = if bytes_eq key (codes "v4-include-headers") then set_include_headers v c else t7 in
    let h6 : IsSized t6 =
      IsSized-if (bytes_eq key (codes "v4-include-headers")) (set_include_headers v c) t7
        (IsSized-same c (set_include_headers v c) h (refl, refl, refl, refl, refl, refl)) h7 in
    let t5 = if bytes_eq key (codes "virtual_host") then set_virt_host c else t6 in
    let h5 : IsSized t5 =
      IsSized-if (bytes_eq key (codes "virtual_host")) (set_virt_host c) t6
        (IsSized-same c (set_virt_host c) h (refl, refl, refl, refl, refl, refl)) h6 in
    let t4 = if bytes_eq key (codes "version") then set_version v c else t5 in
    let h4 : IsSized t4 =
      IsSized-if (bytes_eq key (codes "version")) (set_version v c) t5
        (IsSized-same c (set_version v c) h (refl, refl, refl, refl, refl, refl)) h5 in
    let t3 = if bytes_eq key (codes "session_token") then set_token v c else t4 in
    let h3 : IsSized t3 =
      IsSized-if (bytes_eq key (codes "session_token")) (set_token v c) t4 (set_token-IsSized v c h)
        h4 in
    let t2 = if bytes_eq key (codes "access_key") then set_keyid v c else t3 in
    let h2 : IsSized t2 =
      IsSized-if (bytes_eq key (codes "access_key")) (set_keyid v c) t3 (set_keyid-IsSized v c h)
        h3 in
    IsSized-if (bytes_eq key (codes "secret_key")) (set_secret v c) t2 (set_secret-IsSized v c h) h2

module _ (tv : TextView) (files : Files) where
  apply_lines-IsSized :
      (lines : List Bytes) (c : S3Config) → IsSized c → IsSized (apply_lines tv files lines c)
  unfolding apply_lines apply_line
  apply_lines-IsSized [] c h = h
  apply_lines-IsSized (line ∷ lines) c h =
      let s = tv.trim_space line in
      let kv = tv.take_prefix_at b'=' s in
      let d = apply_key files (tv.trim_space kv.0) (tv.trim_space kv.1) c in
      apply_lines-IsSized lines (if is_empty s || is_comment s then c else d) (
        IsSized-if (is_empty s || is_comment s) c d h
          (apply_key-IsSized files (tv.trim_space kv.0) (tv.trim_space kv.1) c h))

  -- Parsing a file, with whatever result, keeps the stored lengths those of the stored strings.
  pub parse_config-IsSized :
      (fname : Bytes) (c : S3Config) → IsSized c → IsSized (parse_config tv files fname c).0
  unfolding parse_config
  parse_config-IsSized fname c h = elim (Bool-cases (is_empty fname)) [
    | inl e ↦ rw e h
    | inr e ↦ elim (Option-cases (files.read fname)) [
      | inl n ↦ rw (e, n) h
      | inr (text, n) ↦ rw (e, n) (apply_lines-IsSized (getlines 10 text) c h)
    ]
  ]
