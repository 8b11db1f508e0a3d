-- ===== src/Gateway/Response.antt =====
-- The JSON that the server prints (ws_server/src/ws_server.c): the envelope of a response and the
-- status argument.
use wireless_gateway.Prelude.{
  ℕ, ◌+◌, ◌-◌, ◌/◌, ◌%◌, ◌^◌, ◌<◌, ◌≡◌, refl, [], ◌∷◌, ◌++◌, Text, codes, ltb, if◌then◌else◌,
  length, length-append, arith,
}

abbrev pub hex_digit : ℕ → ℕ
hex_digit d = if ltb d 10 then b'0' + d else b'a' + (d - 10)

-- %08lx of a 32-bit value
unfoldable pub hex8 : ℕ → Text
hex8 n =
    hex_digit (n / 16 ^ 7 % 16)
    ∷ hex_digit (n / 16 ^ 6 % 16)
    ∷ hex_digit (n / 16 ^ 5 % 16)
    ∷ hex_digit (n / 16 ^ 4 % 16)
    ∷ hex_digit (n / 16 ^ 3 % 16)
    ∷ hex_digit (n / 16 ^ 2 % 16)
    ∷ hex_digit (n / 16 % 16)
    ∷ hex_digit (n % 16)
    ∷ []

unfoldable pub status_text : ℕ → Text
status_text sta = codes "{\"STA\":\"0x" ++ (hex8 sta ++ codes "\"}")

-- sprintf with pucTemplate, the argument, and the closing brace
unfoldable pub response_text : ℕ → ℕ → Text → Text
response_text fid sid arg =
    codes "{\"FID\":\"0x"
    ++ (hex8 fid
        ++ (codes "\",\"SID\":\"0x" ++ (hex8 sid ++ (codes "\",\"ARG\":" ++ (arg ++ codes "}")))))

-- sizeof(pucTemplate): its characters and the final NUL
abbrev pub template_size : ℕ
template_size = length (codes "{\"FID\":\"0x%08lx\",\"SID\":\"0x%08lx\",\"ARG\":") + 1

-- The length that is allocated for the text and sent, a uint32_t sum.
unfoldable pub response_len : Text → ℕ
response_len arg = (length arg + template_size + 6) % 2 ^ 32

-- Where the 32-bit sum of the length does not wrap, the buffer of a response is filled exactly: what is
-- printed has the length that was allocated.
pub length-response_text :
    (fid sid : ℕ) (arg : Text)
    → length arg + template_size + 6 < 2 ^ 32
    → length (response_text fid sid arg) ≡ response_len arg
unfolding response_text response_len hex8
length-response_text fid sid arg fits = omega (arith, length-append arg (codes "}"))

-- A status fits `sta[21]`, its NUL included.
pub length-status_text : (sta : ℕ) → length (status_text sta) + 1 ≡ 21
unfolding status_text hex8
length-status_text sta = refl
