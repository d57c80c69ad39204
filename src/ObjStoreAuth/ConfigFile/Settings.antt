-- ===== src/ObjStoreAuth/ConfigFile/Settings.antt =====
-- The settings of a configuration file, as a file spells them and as they change the configuration.
use ats_plugin_experiment.Base.{
  true, false, some, List, [], ◌∷◌, Bytes, codes, bytes_eq, is_empty, is_space, ◌≡◌, ◌∙◌, refl, ap,
  arith,
}
use ats_plugin_experiment.ObjStoreAuth.Files.{Files, c_str}
use ats_plugin_experiment.ObjStoreAuth.Config.{
  S3Config, set_secret, set_keyid, set_token, set_virt_host, set_version, set_include_headers,
  set_exclude_headers, set_region_map, set_expiration,
}
use ats_plugin_experiment.ObjStoreAuth.ConfigFile.{TextView, apply_key, is_comment, parse_config}
use ats_plugin_experiment.ObjStoreAuth.ConfigFile.Entries.{
  IsKey, IsValue, IsEntry, print_entries, AreEntries, apply_entries, parse_config-print_entries,
}

pub data Setting : Type 0 where
  secret_key : Bytes → Setting
  access_key : Bytes → Setting
  session_token : Bytes → Setting
  version : Bytes → Setting
  virtual_host : Bytes → Setting
  include_headers : Bytes → Setting
  exclude_headers : Bytes → Setting
  region_map : Bytes → Setting
  expiration : Bytes → Setting
  unknown : Bytes → Bytes → Setting

-- The key and the value in the file.
abbrev pub entry : Setting → Bytes × Bytes
entry (secret_key v) = (codes "secret_key", v)
entry (access_key v) = (codes "access_key", v)
entry (session_token v) = (codes "session_token", v)
entry (version v) = (codes "version", v)
entry (virtual_host v) = (codes "virtual_host", v)
entry (include_headers v) = (codes "v4-include-headers", v)
entry (exclude_headers v) = (codes "v4-exclude-headers", v)
entry (region_map v) = (codes "v4-region-map", v)
entry (expiration v) = (codes "expiration", v)
entry (unknown k v) = (k, v)

-- What the setting does to the configuration.
abbrev pub perform : Files → Setting → S3Config → S3Config
perform files (secret_key v) c = set_secret (c_str v) c
perform files (access_key v) c = set_keyid (c_str v) c
perform files (session_token v) c = set_token (c_str v) c
perform files (version v) c = set_version (c_str v) c
perform files (virtual_host v) c = set_virt_host c
perform files (include_headers v) c = set_include_headers (c_str v) c
perform files (exclude_headers v) c = set_exclude_headers (c_str v) c
perform files (region_map v) c = set_region_map files (c_str v) c
perform files (expiration v) c = set_expiration (c_str v) c
perform files (unknown k v) c = c

abbrev pub perform_all : Files → List Setting → S3Config → S3Config
perform_all files [] c = c
perform_all files (s ∷ ss) c = perform_all files ss (perform files s c)

abbrev entries : List Setting → List (Bytes × Bytes)
entries [] = []
entries (s ∷ ss) = entry s ∷ entries ss

-- A file with one line for each setting.
abbrev pub print_settings : List Setting → Bytes
print_settings ss = print_entries (entries ss)

abbrev pub known_keys : List Bytes
known_keys =
    codes "secret_key"
    ∷ codes "access_key"
    ∷ codes "session_token"
    ∷ codes "version"
    ∷ codes "virtual_host"
    ∷ codes "v4-include-headers"
    ∷ codes "v4-exclude-headers"
    ∷ codes "v4-region-map"
    ∷ codes "expiration"
    ∷ []

abbrev pub IsUnknown : Bytes → List Bytes → Type 0
IsUnknown key [] = Unit
IsUnknown key (known ∷ keys) = (bytes_eq key known ≡ false) × IsUnknown key keys

-- The value can stand on a line as it is, and where the key is not one of the nine, so can the key.
abbrev pub IsSetting : Setting → Type 0
IsSetting (unknown k v) = IsKey k × (IsUnknown k known_keys × IsValue v)
IsSetting s = IsValue (entry s).1

abbrev pub AreSettings : List Setting → Type 0
AreSettings [] = Unit
AreSettings (s ∷ ss) = IsSetting s × AreSettings ss

abbrev key_of : Setting → Bytes
key_of s = (entry s).0

entry-IsKey : (s : Setting) → IsSetting s → IsKey (key_of s)
unfolding is_space is_comment
entry-IsKey (secret_key v) h = record {
  starts = refl;
  ends = refl;
  no_comment = refl;
  without_equals = ground arith;
  one_line = ground arith;
}
entry-IsKey (access_key v) h = record {
  starts = refl;
  ends = refl;
  no_comment = refl;
  without_equals = ground arith;
  one_line = ground arith;
}
entry-IsKey (session_token v) h = record {
  starts = refl;
  ends = refl;
  no_comment = refl;
  without_equals = ground arith;
  one_line = ground arith;
}
entry-IsKey (version v) h = record {
  starts = refl;
  ends = refl;
  no_comment = refl;
  without_equals = ground arith;
  one_line = ground arith;
}
entry-IsKey (virtual_host v) h = record {
  starts = refl;
  ends = refl;
  no_comment = refl;
  without_equals = ground arith;
  one_line = ground arith;
}
entry-IsKey (include_headers v) h = record {
  starts = refl;
  ends = refl;
  no_comment = refl;
  without_equals = ground arith;
  one_line = ground arith;
}
entry-IsKey (exclude_headers v) h = record {
  starts = refl;
  ends = refl;
  no_comment = refl;
  without_equals = ground arith;
  one_line = ground arith;
}
entry-IsKey (region_map v) h = record {
  starts = refl;
  ends = refl;
  no_comment = refl;
  without_equals = ground arith;
  one_line = ground arith;
}
entry-IsKey (expiration v) h = record {
  starts = refl;
  ends = refl;
  no_comment = refl;
  without_equals = ground arith;
  one_line = ground arith;
}
entry-IsKey (unknown k v) (h, _) = h

entry-IsEntry : (s : Setting) → IsSetting s → IsEntry (entry s).0 (entry s).1
entry-IsEntry (secret_key v) h = record { key_is = entry-IsKey (secret_key v) h; value_is = h }
entry-IsEntry (access_key v) h = record { key_is = entry-IsKey (access_key v) h; value_is = h }
entry-IsEntry (session_token v) h = record {
  key_is = entry-IsKey (session_token v) h;
  value_is = h;
}
entry-IsEntry (version v) h = record { key_is = entry-IsKey (version v) h; value_is = h }
entry-IsEntry (virtual_host v) h = record { key_is = entry-IsKey (virtual_host v) h; value_is = h }
entry-IsEntry (include_headers v) h = record {
  key_is = entry-IsKey (include_headers v) h;
  value_is = h;
}
entry-IsEntry (exclude_headers v) h = record {
  key_is = entry-IsKey (exclude_headers v) h;
  value_is = h;
}
entry-IsEntry (region_map v) h = record { key_is = entry-IsKey (region_map v) h; value_is = h }
entry-IsEntry (expiration v) h = record { key_is = entry-IsKey (expiration v) h; value_is = h }
entry-IsEntry (unknown k v) (h, (_, w)) = record { key_is = h; value_is = w }

-- The chain of tests finds the setter of each key.
apply_key-perform :
    (files : Files) (s : Setting) (c : S3Config)
    → IsSetting s
    → apply_key files (entry s).0 (entry s).1 c ≡ perform files s c
unfolding apply_key bytes_eq
apply_key-perform files (secret_key v) c h = refl
apply_key-perform files (access_key v) c h = refl
apply_key-perform files (session_token v) c h = refl
apply_key-perform files (version v) c h = refl
apply_key-perform files (virtual_host v) c h = refl
apply_key-perform files (include_headers v) c h = refl
apply_key-perform files (exclude_headers v) c h = refl
apply_key-perform files (region_map v) c h = refl
apply_key-perform files (expiration v) c h = refl
apply_key-perform files (unknown k v) c (_, ((a, (b, (d, (e, (f, (g, (i, (j, (l, _))))))))), _)) =
    rw (a, b, d, e, f, g, i, j, l) refl

entries-AreEntries : (ss : List Setting) → AreSettings ss → AreEntries (entries ss)
entries-AreEntries [] h = tt
entries-AreEntries (s ∷ ss) (hs, h) = (entry-IsEntry s hs, entries-AreEntries ss h)

apply_entries-perform_all :
    (files : Files) (ss : List Setting) (c : S3Config)
    → AreSettings ss
    → apply_entries files (entries ss) c ≡ perform_all files ss c
apply_entries-perform_all files [] c h = refl
apply_entries-perform_all files (s ∷ ss) c (hs, h) =
    ap (apply_entries files (entries ss)) (apply_key-perform files s c hs)
    ∙ apply_entries-perform_all files ss (perform files s c) h

-- A file that is printed from settings, one `key=value` to a line, is parsed as the settings: each
-- changes the configuration in the way of its key, in order, a setting with an unknown key not at all,
-- and the parse reports success. A value may be empty, and has otherwise no white space at its ends and
-- no line feed inside. An unknown key is not empty, has no white space at its ends, no line feed and no
-- `=` inside, and does not begin with `#`. The file's name is not empty.
pub parse_config-print_settings :
    (tv : TextView) (files : Files) (fname : Bytes) (ss : List Setting) (c : S3Config)
    → is_empty fname ≡ false
    → AreSettings ss
    → files.read fname ≡ some (print_settings ss)
    → parse_config tv files fname c ≡ (perform_all files ss c, true)
parse_config-print_settings tv files fname ss c named h read =
    parse_config-print_entries tv files fname (entries ss) c named (entries-AreEntries ss h) read
    ∙ ap (λ (d : S3Config). (d, true)) (apply_entries-perform_all files ss c h)
