-- ===== src/AwsAuthV4/Encode/Idempotent.antt =====
-- `canonicalEncode` of what it returned changes nothing.
use ats_plugin_experiment.Base.{
  ℕ, Bool, true, false, [], ◌∷◌, ◌++◌, Bytes, IsBytes, ◌≡◌, inl, inr, refl, arith, ap, Bool-cases,
  is_xdigit, is_alnum,
}
use ats_plugin_experiment.AwsAuthV4.Encode.{
  is_unreserved, uri_encode, is_uri_encoded, canonical_encode,
}
use ats_plugin_experiment.AwsAuthV4.Encode.Alphabet.{is_kept, uri_encode_char-KeptOrEscaped}

is_uri_encoded-kept :
    (c : ℕ) (s : Bytes) (o : Bool)
    → is_kept c o ≡ true
    → is_uri_encoded (c ∷ s) o ≡ is_uri_encoded s o
unfolding is_uri_encoded is_unreserved is_alnum
is_uri_encoded-kept c s o h = ground arith

is_uri_encoded-percent :
    (h l : ℕ) (s : Bytes) (o : Bool)
    → is_xdigit h ≡ true
    → is_xdigit l ≡ true
    → is_uri_encoded (b'%' ∷ h ∷ l ∷ s) o ≡ true
unfolding is_uri_encoded is_unreserved is_alnum
is_uri_encoded-percent h l s o xh xl = ground arith

-- Where `uriEncode` leaves text that does not look encoded, it has changed nothing.
uri_encode_unchanged :
    (s : Bytes) (o : Bool)
    → IsBytes s
    → is_uri_encoded (uri_encode s o) o ≡ false
    → uri_encode s o ≡ s
unfolding uri_encode
uri_encode_unchanged [] o h n = refl
uri_encode_unchanged (c ∷ s) o (hc, h) n = elim (uri_encode_char-KeptOrEscaped c o hc) [
  | inl (kept, e) ↦ rw e (
      ap (◌∷◌ c)
        (uri_encode_unchanged s o h (cc (is_uri_encoded-kept c (uri_encode s o) o kept, e, n))))
  | inr (a, b, more, xa, xb, us, e) ↦
      absurd (cc (is_uri_encoded-percent a b (more ++ uri_encode s o) o xa xb, e, n))
]

canonical_encode-uri_encode :
    (s : Bytes) (o : Bool) → IsBytes s → canonical_encode (uri_encode s o) o ≡ uri_encode s o
unfolding canonical_encode
canonical_encode-uri_encode s o h = elim (Bool-cases (is_uri_encoded (uri_encode s o) o)) [
  | inl encoded ↦ rw encoded
  | inr plain ↦ rw plain (ap (λ t. uri_encode t o) (uri_encode_unchanged s o h plain))
]

-- The canonical form of a text of bytes is its own canonical form.
pub canonical_encode_idem :
    (s : Bytes) (is_object_name : Bool)
    → IsBytes s
    → canonical_encode (canonical_encode s is_object_name) is_object_name
      ≡ canonical_encode s is_object_name
unfolding canonical_encode
canonical_encode_idem s o h = elim (Bool-cases (is_uri_encoded s o)) [
  | inl encoded ↦ rw (encoded, encoded)
  | inr plain ↦ rw plain (canonical_encode-uri_encode s o h)
]
