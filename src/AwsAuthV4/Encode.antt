-- ===== src/AwsAuthV4/Encode.antt =====
-- Hexadecimal and URI encoding: `base16Encode`, `uriEncode`, `isUriEncoded`, `canonicalEncode` of
-- src/obj_store_auth/aws_auth_v4.cc. `char` is signed, as on x86.
pub mod Digits
pub mod Base16
pub mod Alphabet
pub mod Decode
pub mod Idempotent
pub mod Detect
use ats_plugin_experiment.Base.{
  ℕ, zero, suc, ◌+◌, ◌-◌, ◌/◌, ◌%◌, ◌^◌, Bool, true, false, not, ◌&&◌, ◌||◌, List, [], ◌∷◌, ◌++◌,
  ltb, ◌==◌, if◌then◌else◌, Bytes, codes, length, is_alnum, is_xdigit,
}

-- A hexadecimal digit; the flag is `std::uppercase`.
unfoldable pub hex_digit : Bool → ℕ → ℕ
hex_digit upper n = if ltb n 10 then b'0' + n else (if upper then b'A' else b'a') + (n - 10)

-- `<< std::hex << n` of a 32-bit number: its digits, at most eight, in front of `acc`.
unfoldable pub hex_go : ℕ → Bool → ℕ → Bytes → Bytes
hex_go zero upper n acc = acc
hex_go (suc rounds) upper n acc =
    let shorter = hex_digit upper (n % 16) ∷ acc in
    let longer = hex_go rounds upper (n / 16) shorter in if n / 16 == 0 then shorter else longer

-- `std::setfill('0') << std::setw(2)`
unfoldable pub pad2 : Bytes → Bytes
pad2 (c ∷ []) = b'0' ∷ c ∷ []
pad2 s = s

unfoldable pub put_hex : Bool → ℕ → Bytes
unfolding hex_digit hex_go pad2
put_hex upper n = pad2 (hex_go 8 upper n [])

unfoldable pub base16_encode : Bytes → Bytes
base16_encode [] = []
base16_encode (c ∷ s) = put_hex false (c % 256) ++ base16_encode s

unfoldable pub is_unreserved : ℕ → Bool
is_unreserved c = is_alnum c || c == b'-' || c == b'_' || c == b'.' || c == b'~'

-- `static_cast<int>` of a signed `char`, as the bit pattern that `std::hex` prints.
unfoldable pub char_to_int : ℕ → ℕ
char_to_int c = if ltb c 128 then c else 2 ^ 32 - 256 + c

-- One round of the loop of `uriEncode`.
unfoldable pub uri_encode_char : ℕ → Bool → Bytes
uri_encode_char c is_object_name =
    if is_unreserved c
    then c ∷ []
    else if c == b' '
    then codes "%20"
    else if is_object_name && c == b'/'
    then codes "/"
    else if c == b'+'
    then codes "%20"
    else b'%' ∷ put_hex true (char_to_int c)

unfoldable pub uri_encode : Bytes → Bool → Bytes
uri_encode [] is_object_name = []
uri_encode (c ∷ s) is_object_name = uri_encode_char c is_object_name ++ uri_encode s is_object_name

-- What follows a '%': two hexadecimal digits, or not.
unfoldable pub two_xdigits : Bytes → Bool
two_xdigits (h ∷ l ∷ s) = is_xdigit h && is_xdigit l
two_xdigits _ = false

-- `isUriEncoded`, from the position on at which `in` goes on with the given bytes.
unfoldable pub is_uri_encoded : Bytes → Bool → Bool
unfolding two_xdigits
is_uri_encoded [] is_object_name = false
is_uri_encoded (c ∷ s) is_object_name =
    let next = is_uri_encoded s is_object_name in
    if is_unreserved c
    then next
    else if c == b' '
    then false
    else if c == b'/' && not is_object_name
    then false
    else if c == b'%'
    then two_xdigits s
    else next

unfoldable pub canonical_encode : Bytes → Bool → Bytes
canonical_encode s is_object_name =
    if not (is_uri_encoded s is_object_name) then uri_encode s is_object_name else s
