-- ===== src/AwsAuthV4/Encode/Digits.antt =====
-- What `put_hex` prints: two digits for a byte, eight for the bit pattern of a negative `char`.
use ats_plugin_experiment.Base.{
  ℕ, zero, suc, ◌+◌, ◌-◌, ◌/◌, ◌%◌, ◌^◌, ◌<◌, ◌≤◌, Bool, true, false, ◌&&◌, ◌||◌, [], ◌∷◌, ◌++◌,
  ltb, leb, if◌then◌else◌, Bytes, codes, bytes_eq, bytes_eq_iff, ◌≡◌, refl, arith, is_alnum,
  is_xdigit,
}
use ats_plugin_experiment.AwsAuthV4.Encode.{hex_digit, put_hex, char_to_int, is_unreserved}

tested : (ℕ → Bool) → ℕ → Bool
tested test zero = true
tested test (suc count) = tested test count && test count

tested-at : (test : ℕ → Bool) (count c : ℕ) → c < count → tested test count ≡ true → test c ≡ true
unfolding tested
tested-at test zero c small passed = absurd (omega (arith, small))
tested-at test (suc count) c small passed = ground (arith, tested-at test count c, small, passed)

-- The two digits of a byte.
unfoldable pub hex_pair : Bool → ℕ → Bytes
hex_pair upper c = hex_digit upper (c / 16) ∷ hex_digit upper (c % 16) ∷ []

abbrev prints_pair : Bool → ℕ → Bool
prints_pair upper c = bytes_eq (put_hex upper c) (hex_pair upper c)

put_hex_table : (upper : Bool) → tested (prints_pair upper) 256 ≡ true
unfolding put_hex hex_pair bytes_eq tested
put_hex_table true = refl
put_hex_table false = refl

pub put_hex_byte : (upper : Bool) (c : ℕ) → c < 256 → put_hex upper c ≡ hex_pair upper c
put_hex_byte upper c h =
    (bytes_eq_iff (put_hex upper c) (hex_pair upper c)).0
      (tested-at (prints_pair upper) 256 c h (put_hex_table upper))

-- What the digits of a negative `char` are.
abbrev pub negative_pair : ℕ → Bytes
negative_pair c = codes "FFFFFF" ++ hex_pair true c

abbrev prints_negative : ℕ → Bool
prints_negative c = ltb c 128 || bytes_eq (put_hex true (2 ^ 32 - 256 + c)) (negative_pair c)

put_hex_negative_table : tested prints_negative 256 ≡ true
unfolding put_hex hex_pair bytes_eq tested
put_hex_negative_table = refl

pub put_hex_negative :
    (c : ℕ) → 128 ≤ c → c < 256 → put_hex true (2 ^ 32 - 256 + c) ≡ negative_pair c
put_hex_negative c lo hi = ground (
  arith,
  tested-at prints_negative 256 c hi put_hex_negative_table,
  bytes_eq_iff (put_hex true (2 ^ 32 - 256 + c)) (negative_pair c),
)

pub hex_digit-is_xdigit : (upper : Bool) (n : ℕ) → n < 16 → is_xdigit (hex_digit upper n) ≡ true
unfolding hex_digit is_xdigit
hex_digit-is_xdigit true n h = ground arith
hex_digit-is_xdigit false n h = ground arith

pub hex_digit-is_unreserved :
    (upper : Bool) (n : ℕ) → n < 16 → is_unreserved (hex_digit upper n) ≡ true
unfolding hex_digit is_unreserved is_alnum
hex_digit-is_unreserved true n h = ground arith
hex_digit-is_unreserved false n h = ground arith

-- The value of a hexadecimal digit in either case, and 0 for any other byte.
unfoldable pub hex_value : ℕ → ℕ
hex_value c =
    if leb b'0' c && leb c b'9'
    then c - b'0'
    else if leb b'A' c && leb c b'F'
    then c - b'A' + 10
    else if leb b'a' c && leb c b'f'
    then c - b'a' + 10
    else 0

pub hex_value-hex_digit : (upper : Bool) (n : ℕ) → n < 16 → hex_value (hex_digit upper n) ≡ n
unfolding hex_value hex_digit
hex_value-hex_digit true n h = ground arith
hex_value-hex_digit false n h = ground arith

-- What `uriEncode` prints behind a '%' for each byte.
pub put_hex-char_to_int :
    (c : ℕ)
    → c < 256
    → put_hex true (char_to_int c) ≡ (if ltb c 128 then hex_pair true c else negative_pair c)
unfolding char_to_int
put_hex-char_to_int c h = ground (arith, put_hex_byte true c, put_hex_negative c)
