-- ===== src/Tests/Values.antt =====
-- Concrete instances of what the development takes as given: a hash library, a text view, files, a
-- buffer writer, header fields and a thread pool. None is the real one; each has what is asked of it.
use ats_plugin_experiment.Base.{
  ℕ, zero, suc, ◌+◌, ◌==◌, true, false, Option, none, some, List, [], ◌∷◌, ◌++◌, append-nil,
  append_assoc, Bytes, codes, bytes_eq, length, leb, pos, Lacks, ◌≡◌, ◌≢◌, inl, inr, refl, sym, ◌∙◌,
  arith, if◌then◌else◌, Bool-cases,
}
use ats_plugin_experiment.AwsAuthV4.Sodium.{Sodium, concat, updates}
use ats_plugin_experiment.AwsAuthV4.Request.{TsInterface}
use ats_plugin_experiment.AwsAuthV4.Authorization.{AwsAuthV4}
use ats_plugin_experiment.AwsAuthV4.Trim.{trim_white_spaces}
use ats_plugin_experiment.AwsAuthV4.Trim.Ends.{trim_white_spaces-TrimOf}
use ats_plugin_experiment.ObjStoreAuth.Files.{Files}
use ats_plugin_experiment.ObjStoreAuth.Config.{S3Config, new_config}
use ats_plugin_experiment.ObjStoreAuth.ConfigFile.{TextView}
use ats_plugin_experiment.ObjStoreAuth.Credentials.{BufferWriter}
use ats_plugin_experiment.ObjStoreAuth.Reload.{Actions, Instance}
use ats_plugin_experiment.ObjStoreAuth.S3Request.{Mime}

-- A digest is the first bytes of the message, filled up with zeros.
abbrev pub digest : ℕ → Bytes → Bytes
digest zero s = []
digest (suc n) [] = 0 ∷ digest n []
digest (suc n) (c ∷ s) = c ∷ digest n s

pub length-digest : (n : ℕ) (s : Bytes) → length (digest n s) ≡ n
length-digest zero s = refl
length-digest (suc n) [] = omega (arith, length-digest n [])
length-digest (suc n) (c ∷ s) = omega (arith, length-digest n s)

pub updates_lem : (s : Bytes) (cs : List Bytes) → updates (λ a b. a ++ b) s cs ≡ s ++ concat cs
updates_lem s [] = sym (append-nil s)
updates_lem s (c ∷ cs) = updates_lem (s ++ c) cs ∙ append_assoc s c (concat cs)

abbrev pub toy_sodium : Sodium
toy_sodium = record {
  Sha256State = Bytes;
  sha256_init = [];
  sha256_update = λ a b. a ++ b;
  sha256_final = λ s. s;
  sha256 = λ s. s;
  HmacState = Bytes;
  hmac_init = λ k. k;
  hmac_update = λ a b. a ++ b;
  hmac_final = digest 32;
  hmac = λ k m. digest 32 (k ++ m);
  sha256_in_parts = λ cs. updates_lem [] cs;
  hmac_in_one_part = λ k m. refl;
  hmac_length = λ k m. length-digest 32 (k ++ m);
}

abbrev pub cut_at : ℕ → Bytes → Bytes × Bytes
cut_at c [] = ([], [])
cut_at c (x ∷ s) = let rest = cut_at c s in if x == c then ([], s) else (x ∷ rest.0, rest.1)

pub cut_at-found : (c : ℕ) (p s : Bytes) → Lacks c p → cut_at c (p ++ c ∷ s) ≡ (p, s)
cut_at-found c [] s h = ground arith
cut_at-found c (x ∷ p) s (hx, h) = ground (arith, cut_at-found c p s h)

pub cut_at-missing : (c : ℕ) (s : Bytes) → Lacks c s → cut_at c s ≡ (s, [])
cut_at-missing c [] h = refl
cut_at-missing c (x ∷ s) (hx, h) = ground (arith, cut_at-missing c s h)

abbrev pub toy_view : TextView
toy_view = record {
  trim_space = trim_white_spaces;
  take_prefix_at = cut_at;
  trim_space-TrimOf = trim_white_spaces-TrimOf;
  take_prefix_at-found = cut_at-found;
  take_prefix_at-missing = cut_at-missing;
}

-- One file, /c/f, with a text.
abbrev pub toy_files : Bytes → Files
toy_files text = record {
  config_dir = codes "/c";
  read = λ path. if bytes_eq path (codes "/c/f") then some text else none;
}

abbrev pub written_if : ℕ → List Bytes → Option Bytes
written_if n ps = if leb (length (concat ps)) n then some (concat ps) else none

pub written_if-concat :
    (n : ℕ) (ps : List Bytes) (s : Bytes) → written_if n ps ≡ some s → s ≡ concat ps
written_if-concat n ps s h = elim (Bool-cases (leb (length (concat ps)) n)) [
  | inl b ↦ ground (arith, b, h)
  | inr b ↦ ground (arith, b, h)
]

abbrev pub toy_writer : BufferWriter
toy_writer = record { written = written_if; written-concat = written_if-concat }

abbrev pub toy_api : TsInterface
toy_api = record {
  method = codes "GET";
  host = codes "b.s3";
  path = codes "a b";
  params = [];
  query = codes "y=2&x=1";
  headers =
      record { name = some (codes "Host"); value = codes " b.s3 " }
      ∷ record { name = some (codes "Range"); value = codes "bytes=0-1" }
      ∷ [];
}

abbrev pub toy_auth : AwsAuthV4
toy_auth = record {
  api = toy_api;
  date_time = codes "20240102T030405Z";
  sign_payload = false;
  aws_access_key_id = codes "AK";
  aws_secret_access_key = codes "SK";
  aws_service = codes "s3";
  included_headers = [];
  excluded_headers = codes "range" ∷ [];
  region_map = ([], codes "r0") ∷ (codes "s3", codes "r1") ∷ [];
}

-- The header counts the fields that were set; no name has a field yet.
abbrev pub counting_mime : Mime ℕ ℕ
counting_mime = record {
  field_find = λ h name. none;
  field_create_named = λ h name. (h, some 0);
  value_string_set = λ h l v. (h + 1, true);
  field_append = λ h l. h;
  field_next_dup = λ h l. none;
  field_destroy = λ h l. h;
  api_of = λ h. toy_api;
}

-- A header that is the list of its fields, all of one name: a number and a value each. Destroying a
-- field takes it out of the list.
abbrev pub Fields : Type 0
Fields = List (ℕ × Bytes)

abbrev first_of : Fields → Option ℕ
first_of [] = none
first_of ((l, v) ∷ h) = some l

abbrev pub next_of : Fields → ℕ → Option ℕ
next_of [] m = none
next_of ((l, v) ∷ h) m = let rest = next_of h m in if l == m then first_of h else rest

abbrev pub set_value : Fields → ℕ → Bytes → Fields
set_value [] m val = []
set_value ((l, v) ∷ h) m val =
    let rest = set_value h m val in if l == m then (l, val) ∷ h else (l, v) ∷ rest

abbrev pub take_out : Fields → ℕ → Fields
take_out [] m = []
take_out ((l, v) ∷ h) m = let rest = take_out h m in if l == m then h else (l, v) ∷ rest

abbrev pub list_mime : Mime Fields ℕ
list_mime = record {
  field_find = λ h name. first_of h;
  field_create_named = λ h name. (h, none);
  value_string_set = λ h l v. (set_value h l v, true);
  field_append = λ h l. h;
  field_next_dup = next_of;
  field_destroy = take_out;
  api_of = λ h. toy_api;
}

first_of-set_value : (h : Fields) (l : ℕ) (val : Bytes) → first_of (set_value h l val) ≡ first_of h
first_of-set_value [] l val = refl
first_of-set_value ((k, v) ∷ h) l val = elim (Bool-cases (k == l)) [
  | inl b ↦ rw b refl
  | inr b ↦ rw b refl
]

pub next_of-set_value :
    (h : Fields) (l m : ℕ) (val : Bytes) → next_of (set_value h l val) m ≡ next_of h m
next_of-set_value [] l m val = refl
next_of-set_value ((k, v) ∷ h) l m val = elim (Bool-cases (k == l)) [
  | inl b ↦ rw b refl
  | inr b ↦ rw b (elim (Bool-cases (k == m)) [
    | inl c ↦ rw c (first_of-set_value h l val)
    | inr c ↦ rw c (next_of-set_value h l m val)
  ])
]

first_of-take_out :
    (h : Fields) (l : ℕ) → first_of h ≢ some l → first_of (take_out h l) ≡ first_of h
first_of-take_out [] l n = refl
first_of-take_out ((k, v) ∷ h) l n = elim (Bool-cases (k == l)) [
  | inl b ↦ absurd (n (ground (arith, b)))
  | inr b ↦ rw b refl
]

pub next_of-take_out :
    (h : Fields) (l m : ℕ) → l ≢ m → next_of h m ≢ some l → next_of (take_out h l) m ≡ next_of h m
next_of-take_out [] l m d n = refl
next_of-take_out ((k, v) ∷ h) l m d n = elim (Bool-cases (k == l)) [
  | inl b ↦ let apart : (k == m) ≡ false = ground (arith, b, d) in rw (b, apart) refl
  | inr b ↦ elim (Bool-cases (k == m)) [
    | inl c ↦ rw (b, c) (first_of-take_out h l (rw c at n))
    | inr c ↦ rw (b, c) (next_of-take_out h l m d (rw c at n))
  ]
]

abbrev pub toy_actions : Actions
toy_actions = record { action_done = λ act. false; scheduled = λ ms. 7 }

abbrev pub toy_config : S3Config
toy_config = record new_config {
  secret = some (codes "SK");
  secret_len = 2;
  keyid = some (codes "AK");
  keyid_len = 2;
  version = pos 4;
  region_map = ([], codes "r0") ∷ (codes "s3", codes "r1") ∷ [];
  expiration = pos 9000;
  conf_fname = some (codes "f");
}

abbrev pub toy_rule : Instance
toy_rule = record { s3 = toy_config; conf_rld_act = some 5 }
