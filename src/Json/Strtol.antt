-- ===== src/Json/Strtol.antt =====
-- `(uint32_t)strtol(s, NULL, 16)`, as C defines it, with the 32-bit `long` of the ESP32: white space,
-- a sign, an optional 0x, and hexadecimal digits up to the first other character. A value out of
-- range is the nearest `long`.
use wireless_gateway.Prelude.{
  ℕ, ◌+◌, ◌-◌, ◌*◌, ◌^◌, Bool, true, false, ◌&&◌, ◌||◌, [], ◌∷◌, Option, none, some, Text, leb,
  ◌==◌, if◌then◌else◌, is_some,
}

unfoldable pub hex_value : ℕ → Option ℕ
hex_value c =
    if leb b'0' c && leb c b'9'
    then some (c - b'0')
    else if leb b'a' c && leb c b'f'
    then some (c - b'a' + 10)
    else if leb b'A' c && leb c b'F'
    then some (c - b'A' + 10)
    else none

unfoldable pub hex_digits : ℕ → Text → ℕ
hex_digits acc [] = acc
hex_digits acc (c ∷ cs) = elim (hex_value c) [ none ↦ acc | some d ↦ hex_digits (acc * 16 + d) cs ]

abbrev is_c_space : ℕ → Bool
is_c_space c = c == 32 || (leb 9 c && leb c 13)

unfoldable pub skip_space : Text → Text
skip_space [] = []
skip_space (c ∷ cs) = let rest = skip_space cs in if is_c_space c then rest else c ∷ cs

abbrev starts_hex : Text → Bool
starts_hex [] = false
starts_hex (c ∷ cs) = is_some (hex_value c)

-- 0x counts as a prefix only where a digit follows.
unfoldable pub skip_prefix : Text → Text
unfolding hex_value
skip_prefix [] = []
skip_prefix (c ∷ []) = c ∷ []
skip_prefix (c ∷ d ∷ cs) =
    if c == b'0' && (d == b'x' || d == b'X') && starts_hex cs then cs else c ∷ d ∷ cs

abbrev clamp_to : ℕ → ℕ → ℕ
clamp_to limit n = if leb n limit then n else limit

-- The absolute value read, and the sign before it, as a 32-bit word.
abbrev as_word : Bool → ℕ → ℕ
as_word false n = clamp_to (2 ^ 31 - 1) n
as_word true n = if n == 0 then 0 else 2 ^ 32 - clamp_to (2 ^ 31) n

unfoldable pub signed : Text → ℕ
unfolding skip_prefix hex_digits
signed [] = 0
signed (c ∷ cs) =
    if c == b'-'
    then as_word true (hex_digits 0 (skip_prefix cs))
    else if c == b'+'
    then as_word false (hex_digits 0 (skip_prefix cs))
    else as_word false (hex_digits 0 (skip_prefix (c ∷ cs)))

unfoldable pub strtol_hex : Text → ℕ
unfolding skip_space signed
strtol_hex s = signed (skip_space s)
