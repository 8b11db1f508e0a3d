-- ===== src/Base64.antt =====
-- The browser's `btoa` and `atob`, by which main/flash_data/terminal/script.js carries bytes in
-- JSON: the Base64 encoder, and the forgiving decoder of the HTML standard.
pub mod Decode
pub mod RoundTrip
use wireless_gateway.Prelude.{
  ℕ, ◌+◌, ◌-◌, ◌*◌, ◌/◌, ◌%◌, Bool, ◌&&◌, ◌||◌, List, [], ◌∷◌, Option, none, some, Text, ltb, leb,
  ◌==◌, if◌then◌else◌,
}

abbrev pub pad : ℕ
pad = b'='

unfoldable pub sextet_char : ℕ → ℕ
sextet_char v =
    if ltb v 26
    then b'A' + v
    else if ltb v 52
    then b'a' + (v - 26)
    else if ltb v 62
    then b'0' + (v - 52)
    else if v == 62
    then b'+'
    else b'/'

unfoldable pub char_sextet : ℕ → Option ℕ
char_sextet c =
    if leb b'A' c && leb c b'Z'
    then some (c - b'A')
    else if leb b'a' c && leb c b'z'
    then some (c - b'a' + 26)
    else if leb b'0' c && leb c b'9'
    then some (c - b'0' + 52)
    else if c == b'+'
    then some 62
    else if c == b'/'
    then some 63
    else none

unfoldable pub btoa : List ℕ → Text
btoa [] = []
btoa (a ∷ []) = sextet_char (a / 4) ∷ sextet_char (a % 4 * 16) ∷ pad ∷ pad ∷ []
btoa (a ∷ b ∷ []) =
    sextet_char (a / 4) ∷ sextet_char (a % 4 * 16 + b / 16) ∷ sextet_char (b % 16 * 4) ∷ pad ∷ []
btoa (a ∷ b ∷ c ∷ rest) =
    sextet_char (a / 4)
    ∷ sextet_char (a % 4 * 16 + b / 16)
    ∷ sextet_char (b % 16 * 4 + c / 64)
    ∷ sextet_char (c % 64)
    ∷ btoa rest
