-- ===== src/Terminal/Utf8.antt =====
-- `TextEncoder.encode`: the UTF-8 bytes of a JavaScript string, given by its 16-bit code units. A pair of
-- surrogates stands for one code point, and a surrogate without its partner for U+FFFD.
pub mod Scalars
pub mod RoundTrip
use wireless_gateway.Prelude.{
  ℕ, ◌+◌, ◌-◌, ◌*◌, ◌/◌, ◌%◌, ◌≤◌, ◌<◌, ◌≡◌, ◌⊎◌, inl, inr, Bool, true, false, ◌&&◌, List, [], ◌∷◌,
  ◌++◌, Option, none, some, ltb, leb, if◌then◌else◌, All, All-append, arith,
}
use wireless_gateway.Base64.RoundTrip.{IsByte}

abbrev pub IsCodeUnit : ℕ → Type 0
IsCodeUnit u = u < 0x10000

-- A code point that is no surrogate.
abbrev pub IsScalar : ℕ → Type 0
IsScalar c = (c < 0x110000) × ((c < 0xd800) ⊎ (0xe000 ≤ c))

abbrev pub is_high : ℕ → Bool
is_high u = leb 0xd800 u && ltb u 0xdc00

abbrev pub is_low : ℕ → Bool
is_low u = leb 0xdc00 u && ltb u 0xe000

abbrev pub replacement : ℕ
replacement = 0xfffd

abbrev pub pair : ℕ → ℕ → ℕ
pair h l = 0x10000 + (h - 0xd800) * 0x400 + (l - 0xdc00)

-- What a code unit adds, after a high surrogate that still waits for its partner, if there is one.
unfoldable pub emitted : Option ℕ → ℕ → List ℕ
emitted none u = if is_high u then [] else if is_low u then replacement ∷ [] else u ∷ []
emitted (some h) u =
    if is_low u then pair h u ∷ [] else if is_high u then replacement ∷ [] else replacement ∷ u ∷ []

unfoldable pub scalars_after : Option ℕ → List ℕ → List ℕ
unfolding emitted
scalars_after none [] = []
scalars_after (some h) [] = replacement ∷ []
scalars_after waiting (u ∷ us) =
    emitted waiting u ++ scalars_after (if is_high u then some u else none) us

unfoldable pub scalars : List ℕ → List ℕ
unfolding scalars_after
scalars us = scalars_after none us

unfoldable pub encode_char : ℕ → List ℕ
encode_char c =
    if ltb c 0x80
    then c ∷ []
    else if ltb c 0x800
    then (0xc0 + c / 64) ∷ (0x80 + c % 64) ∷ []
    else if ltb c 0x10000
    then (0xe0 + c / 4096) ∷ (0x80 + c / 64 % 64) ∷ (0x80 + c % 64) ∷ []
    else (0xf0 + c / 0x40000) ∷ (0x80 + c / 4096 % 64) ∷ (0x80 + c / 64 % 64) ∷ (0x80 + c % 64) ∷ []

unfoldable pub encode_scalars : List ℕ → List ℕ
unfolding encode_char
encode_scalars [] = []
encode_scalars (c ∷ cs) = encode_char c ++ encode_scalars cs

unfoldable pub encode : List ℕ → List ℕ
unfolding scalars encode_scalars
encode us = encode_scalars (scalars us)
