-- ===== src/AwsAuthV4/Encode/Decode.antt =====
-- Percent-decoding undoes `uriEncode` on ASCII text, and not on other bytes.
use ats_plugin_experiment.Base.{
  ℕ, ◌+◌, ◌*◌, ◌/◌, ◌%◌, ◌<◌, ◌≤◌, Bool, true, false, ◌||◌, [], ◌∷◌, ◌++◌, Bytes, IsAscii, map, ◌≡◌,
  inl, inr, refl, arith, ap, ◌∙◌, Bool-cases, ◌==◌, is_alnum, if◌then◌else◌, ltb, codes, sym,
}
use ats_plugin_experiment.AwsAuthV4.Encode.{
  is_unreserved, uri_encode_char, uri_encode, char_to_int, put_hex,
}
use ats_plugin_experiment.AwsAuthV4.Encode.Alphabet.{
  is_kept, uri_encode_char-kept, uri_encode_char-space, uri_encode_char-hex,
}
use ats_plugin_experiment.AwsAuthV4.Encode.Digits.{
  hex_pair, put_hex-char_to_int, hex_value, hex_value-hex_digit,
}

-- A '%' and two bytes stand for one byte; a '%' too near the end stands for itself.
unfoldable pub percent_decode : Bytes → Bytes
percent_decode (c ∷ h ∷ l ∷ s) = elim (c == b'%') [
  | true ↦ (hex_value h * 16 + hex_value l) ∷ percent_decode s
  | false ↦ c ∷ percent_decode (h ∷ l ∷ s)
]
percent_decode (c ∷ s) = c ∷ percent_decode s
percent_decode [] = []

put_hex_ascii : (c : ℕ) → c < 128 → put_hex true (char_to_int c) ≡ hex_pair true c
put_hex_ascii c h = ground (arith, put_hex-char_to_int c)

negative_not_kept : (c : ℕ) (o : Bool) → 128 ≤ c → is_kept c o ≡ false
unfolding is_unreserved is_alnum
negative_not_kept c o h = ground arith

negative_not_space : (c : ℕ) → 128 ≤ c → (c == b' ' || c == b'+') ≡ false
negative_not_space c h = ground arith

negative_not_ascii : (c : ℕ) → 128 ≤ c → ltb c 128 ≡ false
negative_not_ascii c h = ground arith

percent_decode_space : (s : Bytes) → percent_decode (codes "%20" ++ s) ≡ b' ' ∷ percent_decode s
unfolding percent_decode hex_value
percent_decode_space s = refl

-- `uriEncode` takes a plus sign for a space.
unfoldable pub plus_to_space : ℕ → ℕ
plus_to_space c = if c == b'+' then b' ' else c

percent_decode_plain :
    (c : ℕ) (s : Bytes) → (c == b'%') ≡ false → percent_decode (c ∷ s) ≡ c ∷ percent_decode s
unfolding percent_decode
percent_decode_plain c [] h = refl
percent_decode_plain c (a ∷ []) h = refl
percent_decode_plain c (a ∷ b ∷ s) h = rw (h, percent_decode)

percent_decode-hex_pair :
    (c : ℕ) (s : Bytes)
    → c < 256
    → percent_decode (b'%' ∷ (hex_pair true c ++ s)) ≡ c ∷ percent_decode s
unfolding percent_decode hex_pair
percent_decode-hex_pair c s h =
    ap (λ d. d ∷ percent_decode s)
      (omega (arith, hex_value-hex_digit true (c / 16), hex_value-hex_digit true (c % 16)))

kept_facts : (c : ℕ) (o : Bool) → is_kept c o ≡ true → ((c == b'%') ≡ false) × (plus_to_space c ≡ c)
unfolding is_unreserved is_alnum plus_to_space
kept_facts c o h = ground arith

percent_decode-uri_encode_char :
    (c : ℕ) (o : Bool) (s : Bytes)
    → c < 128
    → percent_decode (uri_encode_char c o ++ s) ≡ plus_to_space c ∷ percent_decode s
unfolding plus_to_space
percent_decode-uri_encode_char c o s h = elim (Bool-cases (is_kept c o)) [
  | inl kept ↦ rw (uri_encode_char-kept c o kept) (
      let (plain, same) = kept_facts c o kept in
      percent_decode_plain c s plain ∙ ap (λ d. d ∷ percent_decode s) (sym same))
  | inr other ↦ elim (Bool-cases (c == b' ' || c == b'+')) [
    | inl space ↦
        rw (uri_encode_char-space c o other space)
          (percent_decode_space s ∙ ap (λ d. d ∷ percent_decode s) (ground arith))
    | inr hex ↦
        rw (uri_encode_char-hex c o other hex, put_hex_ascii c h)
          (percent_decode-hex_pair c s (omega arith)
            ∙ ap (λ d. d ∷ percent_decode s) (ground arith))
  ]
]

-- Decoding an encoded ASCII text gives the text back, with each '+' read as a space.
pub percent_decode-uri_encode :
    (s : Bytes) (is_object_name : Bool)
    → IsAscii s
    → percent_decode (uri_encode s is_object_name) ≡ map plus_to_space s
unfolding uri_encode percent_decode
percent_decode-uri_encode [] o h = refl
percent_decode-uri_encode (c ∷ s) o (hc, h) =
    percent_decode-uri_encode_char c o (uri_encode s o) hc
    ∙ ap (◌∷◌ (plus_to_space c)) (percent_decode-uri_encode s o h)

-- A byte from 128 up is a negative `char`, whose sign is printed too: '%', six 'F's, two digits.
pub uri_encode_negative :
    (c : ℕ) (s : Bytes) (is_object_name : Bool)
    → 128 ≤ c
    → c < 256
    → uri_encode (c ∷ s) is_object_name
      ≡ codes "%FFFFFF" ++ hex_pair true c ++ uri_encode s is_object_name
unfolding uri_encode
uri_encode_negative c s o lo hi = rw (
  uri_encode_char-hex c o (negative_not_kept c o lo) (negative_not_space c lo),
  put_hex-char_to_int c hi,
  negative_not_ascii c lo,
)
