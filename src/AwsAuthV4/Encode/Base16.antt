-- ===== src/AwsAuthV4/Encode/Base16.antt =====
-- `base16Encode` doubles the length and loses nothing.
use ats_plugin_experiment.Base.{
  ℕ, ◌+◌, ◌*◌, ◌/◌, ◌%◌, true, false, [], ◌∷◌, Bytes, length, IsBytes, ◌≡◌, refl, arith, All,
  is_xdigit,
}
use ats_plugin_experiment.AwsAuthV4.Encode.{base16_encode, put_hex}
use ats_plugin_experiment.AwsAuthV4.Encode.Digits.{
  hex_pair, put_hex_byte, hex_value, hex_value-hex_digit, hex_digit-is_xdigit,
}

-- Reads pairs of hexadecimal digits; an odd digit at the end is dropped.
unfoldable pub base16_decode : Bytes → Bytes
base16_decode (h ∷ l ∷ s) = (hex_value h * 16 + hex_value l) ∷ base16_decode s
base16_decode _ = []

put_hex_low_byte : (c : ℕ) → put_hex false (c % 256) ≡ hex_pair false (c % 256)
put_hex_low_byte c = put_hex_byte false (c % 256) (omega arith)

-- Decoding what `base16Encode` printed gives the bytes back.
pub base16_decode-base16_encode : (s : Bytes) → IsBytes s → base16_decode (base16_encode s) ≡ s
unfolding base16_decode base16_encode hex_pair
base16_decode-base16_encode [] h = refl
base16_decode-base16_encode (c ∷ s) (hc, h) = rw (put_hex_low_byte c) (
    ground (
      arith,
      base16_decode-base16_encode s h,
      hex_value-hex_digit false (c % 256 / 16),
      hex_value-hex_digit false (c % 256 % 16),
    ))

pub length-base16_encode : (s : Bytes) → length (base16_encode s) ≡ 2 * length s
unfolding base16_encode hex_pair
length-base16_encode [] = omega arith
length-base16_encode (c ∷ s) = rw (put_hex_low_byte c) (omega (arith, length-base16_encode s))

pub base16_encode-is_xdigit : (s : Bytes) → All (λ c. is_xdigit c ≡ true) (base16_encode s)
unfolding base16_encode hex_pair
base16_encode-is_xdigit [] = tt
base16_encode-is_xdigit (c ∷ s) = rw (put_hex_low_byte c) (
  hex_digit-is_xdigit false (c % 256 / 16) (omega arith),
  (hex_digit-is_xdigit false (c % 256 % 16) (omega arith), base16_encode-is_xdigit s),
)
