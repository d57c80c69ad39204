-- ===== src/AwsAuthV4/Encode/Alphabet.antt =====
-- The bytes that `uriEncode` writes.
use ats_plugin_experiment.Base.{
  ℕ, ◌/◌, ◌%◌, ◌<◌, Bool, true, false, ◌||◌, ◌&&◌, [], ◌∷◌, ◌++◌, Bytes, IsBytes, ◌≡◌, ◌⊎◌, inl,
  inr, refl, arith, All, All-append, All-map, is_xdigit, ap, ◌∙◌, Bool-cases, ◌==◌, ltb, codes,
  is_alnum,
}
use ats_plugin_experiment.AwsAuthV4.Encode.{
  is_unreserved, uri_encode_char, uri_encode, put_hex, char_to_int, hex_digit,
}
use ats_plugin_experiment.AwsAuthV4.Encode.Digits.{
  hex_pair, negative_pair, put_hex-char_to_int, hex_digit-is_xdigit, hex_digit-is_unreserved,
}

-- The bytes that stand for themselves.
abbrev pub is_kept : ℕ → Bool → Bool
is_kept c is_object_name = is_unreserved c || (is_object_name && c == b'/')

-- A byte is copied, or becomes '%', two hexadecimal digits and, for a negative `char`, more.
abbrev pub KeptOrEscaped : ℕ → Bool → Type 0
KeptOrEscaped c is_object_name =
    ((is_kept c is_object_name ≡ true) × (uri_encode_char c is_object_name ≡ c ∷ []))
    ⊎ ((h l : ℕ) × (more : Bytes) × (is_xdigit h ≡ true)
        × (is_xdigit l ≡ true)
        × (All (λ d. is_unreserved d ≡ true) (h ∷ l ∷ more))
        × (uri_encode_char c is_object_name ≡ b'%' ∷ h ∷ l ∷ more))

pub uri_encode_char-space :
    (c : ℕ) (is_object_name : Bool)
    → is_kept c is_object_name ≡ false
    → (c == b' ' || c == b'+') ≡ true
    → uri_encode_char c is_object_name ≡ codes "%20"
unfolding uri_encode_char
uri_encode_char-space c is_object_name h k = ground arith

pub uri_encode_char-hex :
    (c : ℕ) (is_object_name : Bool)
    → is_kept c is_object_name ≡ false
    → (c == b' ' || c == b'+') ≡ false
    → uri_encode_char c is_object_name ≡ b'%' ∷ put_hex true (char_to_int c)
unfolding uri_encode_char
uri_encode_char-hex c is_object_name h k = ground arith

pub uri_encode_char-kept :
    (c : ℕ) (is_object_name : Bool)
    → is_kept c is_object_name ≡ true
    → uri_encode_char c is_object_name ≡ c ∷ []
unfolding uri_encode_char
uri_encode_char-kept c is_object_name h = ground arith

AllUnreserved-hex_pair : (c : ℕ) → c < 256 → All (λ d. is_unreserved d ≡ true) (hex_pair true c)
unfolding hex_pair
AllUnreserved-hex_pair c h = (
  hex_digit-is_unreserved true (c / 16) (omega arith),
  (hex_digit-is_unreserved true (c % 16) (omega arith), tt),
)

AllUnreserved-negative_pair :
    (c : ℕ) → c < 256 → All (λ d. is_unreserved d ≡ true) (negative_pair c)
unfolding is_unreserved is_alnum
AllUnreserved-negative_pair c h =
    (refl, (refl, (refl, (refl, (refl, (refl, AllUnreserved-hex_pair c h))))))

uri_encode_char-escaped :
    (c : ℕ) (is_object_name : Bool)
    → c < 256
    → is_kept c is_object_name ≡ false
    → (h l : ℕ) × (more : Bytes) × (is_xdigit h ≡ true)
      × (is_xdigit l ≡ true)
      × All (λ d. is_unreserved d ≡ true) (h ∷ l ∷ more)
      × (uri_encode_char c is_object_name ≡ b'%' ∷ h ∷ l ∷ more)
unfolding is_xdigit is_unreserved is_alnum hex_pair
uri_encode_char-escaped c o h other = elim (Bool-cases (c == b' ' || c == b'+')) [
  | inl space ↦
      (b'2', b'0', [], refl, refl, (refl, (refl, tt)), uri_encode_char-space c o other space)
  | inr hex ↦ elim (Bool-cases (ltb c 128)) [
    | inl ascii ↦ (
      hex_digit true (c / 16),
      hex_digit true (c % 16),
      [],
      hex_digit-is_xdigit true (c / 16) (omega arith),
      hex_digit-is_xdigit true (c % 16) (omega arith),
      AllUnreserved-hex_pair c h,
      uri_encode_char-hex c o other hex ∙ ap (◌∷◌ b'%') (put_hex-char_to_int c h ∙ rw ascii),
    )
    | inr negative ↦ (
      b'F',
      b'F',
      codes "FFFF" ++ hex_pair true c,
      refl,
      refl,
      AllUnreserved-negative_pair c h,
      uri_encode_char-hex c o other hex ∙ ap (◌∷◌ b'%') (put_hex-char_to_int c h ∙ rw negative),
    )
  ]
]

pub uri_encode_char-KeptOrEscaped :
    (c : ℕ) (is_object_name : Bool) → c < 256 → KeptOrEscaped c is_object_name
uri_encode_char-KeptOrEscaped c o h = elim (Bool-cases (is_kept c o)) [
  | inl kept ↦ inl (kept, uri_encode_char-kept c o kept)
  | inr other ↦ inr (uri_encode_char-escaped c o h other)
]

-- A byte that a canonical URI may hold.
abbrev pub IsUriByte : Bool → ℕ → Type 0
IsUriByte is_object_name c = (is_kept c is_object_name || c == b'%') ≡ true

unreserved-IsUriByte : (o : Bool) (c : ℕ) → is_unreserved c ≡ true → IsUriByte o c
unreserved-IsUriByte o c h = ground arith

kept-IsUriByte : (o : Bool) (c : ℕ) → is_kept c o ≡ true → IsUriByte o c
kept-IsUriByte o c h = ground arith

percent-IsUriByte : (o : Bool) → IsUriByte o b'%'
percent-IsUriByte o = ground arith

uri_encode_char-IsUriByte : (c : ℕ) (o : Bool) → c < 256 → All (IsUriByte o) (uri_encode_char c o)
uri_encode_char-IsUriByte c o h = elim (uri_encode_char-KeptOrEscaped c o h) [
  | inl (kept, e) ↦ rw e (kept-IsUriByte o c kept, tt)
  | inr (a, b, more, xa, xb, us, e) ↦
      rw e (percent-IsUriByte o, All-map (unreserved-IsUriByte o) (a ∷ b ∷ more) us)
]

-- Every byte that `uriEncode` writes is unreserved, a '%', or a '/' where slashes are kept.
pub uri_encode-IsUriByte :
    (s : Bytes) (is_object_name : Bool)
    → IsBytes s
    → All (IsUriByte is_object_name) (uri_encode s is_object_name)
unfolding uri_encode
uri_encode-IsUriByte [] o h = tt
uri_encode-IsUriByte (c ∷ s) o (hc, h) =
    All-append (IsUriByte o) (uri_encode_char c o) (uri_encode s o)
      (uri_encode_char-IsUriByte c o hc) (uri_encode-IsUriByte s o h)
