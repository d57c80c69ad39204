-- ===== src/AwsAuthV4/Encode/Detect.antt =====
-- Which texts `isUriEncoded` takes for encoded.
use ats_plugin_experiment.Base.{
  ℕ, Bool, true, false, not, ◌||◌, ◌&&◌, [], ◌∷◌, ◌++◌, Bytes, All, ◌≡◌, ◌↔◌, inl, inr, refl, arith,
  ap, ◌∙◌, Bool-cases, ◌==◌, is_xdigit, is_alnum,
}
use ats_plugin_experiment.AwsAuthV4.Encode.{is_unreserved, two_xdigits, is_uri_encoded}

-- A byte that the scan passes over.
abbrev pub IsPassed : Bool → ℕ → Type 0
IsPassed is_object_name c = (c == b'%' || c == b' ' || (c == b'/' && not is_object_name)) ≡ false

-- The first '%' is followed by two hexadecimal digits, and neither a space nor, outside an object
-- name, a slash stands in front of it.
pub record FirstEscape (s : Bytes) (is_object_name : Bool) : Type 0 where
  pub before : Bytes
  pub high : ℕ
  pub low : ℕ
  pub after : Bytes
  pub splits : s ≡ before ++ b'%' ∷ high ∷ low ∷ after
  pub passed : All (IsPassed is_object_name) before
  pub high_digit : is_xdigit high ≡ true
  pub low_digit : is_xdigit low ≡ true

FirstEscape-cons :
    (c : ℕ) (s : Bytes) (o : Bool) → IsPassed o c → FirstEscape s o → FirstEscape (c ∷ s) o
FirstEscape-cons c s o p f = record {
  before = c ∷ f.before;
  high = f.high;
  low = f.low;
  after = f.after;
  splits = ap (◌∷◌ c) f.splits;
  passed = (p, f.passed);
  high_digit = f.high_digit;
  low_digit = f.low_digit;
}

is_uri_encoded-passed :
    (c : ℕ) (s : Bytes) (o : Bool) → IsPassed o c → is_uri_encoded (c ∷ s) o ≡ is_uri_encoded s o
unfolding is_uri_encoded is_unreserved is_alnum
is_uri_encoded-passed c s o h = ground arith

stop_bytes :
    (c : ℕ) (o : Bool)
    → (c == b'%' || c == b' ' || (c == b'/' && not o)) ≡ true
    → is_unreserved c ≡ false
unfolding is_unreserved is_alnum
stop_bytes c o n = ground arith

is_uri_encoded-stopped :
    (c : ℕ) (s : Bytes) (o : Bool)
    → (c == b'%' || c == b' ' || (c == b'/' && not o)) ≡ true
    → is_uri_encoded (c ∷ s) o ≡ true
    → (c ≡ b'%') × (two_xdigits s ≡ true)
unfolding is_uri_encoded
is_uri_encoded-stopped c s o n h = unfold_stop (stop_bytes c o n)
  where
    unfold_stop : is_unreserved c ≡ false → (c ≡ b'%') × (two_xdigits s ≡ true)
    unfold_stop u = (ground arith, ground arith)

two_xdigits-digits :
    (s : Bytes)
    → two_xdigits s ≡ true
    → (h l : ℕ) × (after : Bytes) × (s ≡ h ∷ l ∷ after)
      × (is_xdigit h ≡ true)
      × (is_xdigit l ≡ true)
unfolding two_xdigits
two_xdigits-digits [] h = absurd (cc h)
two_xdigits-digits (a ∷ []) h = absurd (cc h)
two_xdigits-digits (a ∷ b ∷ s) h = (a, b, s, refl, ground arith, ground arith)

is_uri_encoded-FirstEscape : (s : Bytes) (o : Bool) → is_uri_encoded s o ≡ true → FirstEscape s o
is_uri_encoded-FirstEscape [] o h = absurd (unfold is_uri_encoded in cc h)
is_uri_encoded-FirstEscape (c ∷ s) o h =
    elim (Bool-cases (c == b'%' || c == b' ' || (c == b'/' && not o))) [
      | inl stop ↦
          let (percent, two) = is_uri_encoded-stopped c s o stop h in
          let (a, b, after, e, xa, xb) = two_xdigits-digits s two in
          record {
            before = [];
            high = a;
            low = b;
            after = after;
            splits = cc (percent, e);
            passed = tt;
            high_digit = xa;
            low_digit = xb;
          }
      | inr pass ↦
          FirstEscape-cons c s o pass
            (is_uri_encoded-FirstEscape s o (cc (is_uri_encoded-passed c s o pass, h)))
    ]

passed_then_escape :
    (p : Bytes) (h l : ℕ) (after : Bytes) (o : Bool)
    → All (IsPassed o) p
    → is_xdigit h ≡ true
    → is_xdigit l ≡ true
    → is_uri_encoded (p ++ b'%' ∷ h ∷ l ∷ after) o ≡ true
unfolding is_uri_encoded is_unreserved is_alnum
passed_then_escape [] h l after o ps xh xl = ground arith
passed_then_escape (c ∷ p) h l after o (pc, ps) xh xl =
    is_uri_encoded-passed c (p ++ b'%' ∷ h ∷ l ∷ after) o pc
    ∙ passed_then_escape p h l after o ps xh xl

-- `isUriEncoded` holds exactly where the first '%' of the text is followed by two hexadecimal
-- digits, and neither a space nor, outside an object name, a slash stands in front of it.
pub is_uri_encoded_iff :
    (s : Bytes) (is_object_name : Bool)
    → (is_uri_encoded s is_object_name ≡ true) ↔ FirstEscape s is_object_name
is_uri_encoded_iff s o = (
  is_uri_encoded-FirstEscape s o,
  λ f.
      rw f.splits
        (passed_then_escape f.before f.high f.low f.after o f.passed f.high_digit f.low_digit),
)
