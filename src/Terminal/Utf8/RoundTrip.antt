-- ===== src/Terminal/Utf8/RoundTrip.antt =====
-- UTF-8 read back: the code points that well-formed bytes stand for.
use wireless_gateway.Prelude.{
  ℕ, zero, suc, ◌+◌, ◌-◌, ◌*◌, ◌/◌, ◌%◌, ◌≤◌, ◌<◌, ◌≡◌, refl, ap, ◌∙◌, inl, inr, true, false, List,
  [], ◌∷◌, ◌++◌, ltb, if◌then◌else◌, arith, Bool-cases,
}
use wireless_gateway.Terminal.Utf8.{scalars, encode_char, encode_scalars, encode}

-- The bytes that follow a leading byte, and the bits that it carries.
abbrev pub following : ℕ → ℕ
following b = if ltb b 0xc0 then 0 else if ltb b 0xe0 then 1 else if ltb b 0xf0 then 2 else 3

abbrev pub leading_bits : ℕ → ℕ
leading_bits b =
    if ltb b 0xc0
    then 0
    else if ltb b 0xe0
    then b - 0xc0
    else if ltb b 0xf0
    then b - 0xe0
    else b - 0xf0

-- The bytes still missing of a code point, and its bits so far.
unfoldable pub decode_from : ℕ → ℕ → List ℕ → List ℕ
decode_from n bits [] = []
decode_from zero bits (b ∷ bs) =
    (if ltb b 0x80 then b ∷ [] else []) ++ decode_from (following b) (leading_bits b) bs
decode_from (suc zero) bits (b ∷ bs) = (bits * 64 + (b - 0x80)) ∷ decode_from 0 0 bs
decode_from (suc (suc n)) bits (b ∷ bs) = decode_from (suc n) (bits * 64 + (b - 0x80)) bs

unfoldable pub decode_utf8 : List ℕ → List ℕ
unfolding decode_from
decode_utf8 bs = decode_from 0 0 bs

lead_one : (b : ℕ) (bs : List ℕ) → b < 0x80 → decode_from 0 0 (b ∷ bs) ≡ b ∷ decode_from 0 0 bs
unfolding decode_from
lead_one b bs h = ground arith

lead_two :
    (b : ℕ) (bs : List ℕ)
    → 0xc0 ≤ b
    → b < 0xe0
    → decode_from 0 0 (b ∷ bs) ≡ decode_from 1 (b - 0xc0) bs
unfolding decode_from
lead_two b bs h k = ground arith

lead_three :
    (b : ℕ) (bs : List ℕ)
    → 0xe0 ≤ b
    → b < 0xf0
    → decode_from 0 0 (b ∷ bs) ≡ decode_from 2 (b - 0xe0) bs
unfolding decode_from
lead_three b bs h k = ground arith

lead_four :
    (b : ℕ) (bs : List ℕ) → 0xf0 ≤ b → decode_from 0 0 (b ∷ bs) ≡ decode_from 3 (b - 0xf0) bs
unfolding decode_from
lead_four b bs h = ground arith

-- The code point that the last byte of a sequence completes.
complete : (c n : ℕ) (bs : List ℕ) → n ≡ c → n ∷ decode_from 0 0 bs ≡ c ∷ decode_from 0 0 bs
complete c n bs e = ap (λ m. m ∷ decode_from 0 0 bs) e

char_one : (c : ℕ) → ltb c 0x80 ≡ true → encode_char c ≡ c ∷ []
unfolding encode_char
char_one c h = rw h refl

char_two :
    (c : ℕ)
    → ltb c 0x80 ≡ false
    → ltb c 0x800 ≡ true
    → encode_char c ≡ (0xc0 + c / 64) ∷ (0x80 + c % 64) ∷ []
unfolding encode_char
char_two c h k = rw h (rw k refl)

char_three :
    (c : ℕ)
    → ltb c 0x80 ≡ false
    → ltb c 0x800 ≡ false
    → ltb c 0x10000 ≡ true
    → encode_char c ≡ (0xe0 + c / 4096) ∷ (0x80 + c / 64 % 64) ∷ (0x80 + c % 64) ∷ []
unfolding encode_char
char_three c h k l = rw h (rw k (rw l refl))

char_four :
    (c : ℕ)
    → ltb c 0x80 ≡ false
    → ltb c 0x800 ≡ false
    → ltb c 0x10000 ≡ false
    → encode_char c
      ≡ (0xf0 + c / 0x40000) ∷ (0x80 + c / 4096 % 64) ∷ (0x80 + c / 64 % 64) ∷ (0x80 + c % 64) ∷ []
unfolding encode_char
char_four c h k l = rw h (rw k (rw l refl))

two_bytes :
    (c : ℕ) (bs : List ℕ)
    → c < 0x800
    → decode_from 0 0 ((0xc0 + c / 64) ∷ (0x80 + c % 64) ∷ bs) ≡ c ∷ decode_from 0 0 bs
unfolding decode_from
two_bytes c bs h =
    lead_two (0xc0 + c / 64) ((0x80 + c % 64) ∷ bs) (omega arith) (omega arith)
    ∙ complete c ((0xc0 + c / 64 - 0xc0) * 64 + (0x80 + c % 64 - 0x80)) bs (omega arith)

three_bytes :
    (c : ℕ) (bs : List ℕ)
    → c < 0x10000
    → decode_from 0 0 ((0xe0 + c / 4096) ∷ (0x80 + c / 64 % 64) ∷ (0x80 + c % 64) ∷ bs)
      ≡ c ∷ decode_from 0 0 bs
unfolding decode_from
three_bytes c bs h =
    lead_three (0xe0 + c / 4096) ((0x80 + c / 64 % 64) ∷ (0x80 + c % 64) ∷ bs) (omega arith)
      (omega arith)
    ∙ complete c
        (((0xe0 + c / 4096 - 0xe0) * 64 + (0x80 + c / 64 % 64 - 0x80)) * 64
          + (0x80 + c % 64 - 0x80))
        bs (omega arith)

four_bytes :
    (c : ℕ) (bs : List ℕ)
    → decode_from 0 0 (
        (0xf0 + c / 0x40000) ∷ (0x80 + c / 4096 % 64) ∷ (0x80 + c / 64 % 64) ∷ (0x80 + c % 64) ∷ bs)
      ≡ c ∷ decode_from 0 0 bs
unfolding decode_from
four_bytes c bs =
    lead_four (0xf0 + c / 0x40000)
      ((0x80 + c / 4096 % 64) ∷ (0x80 + c / 64 % 64) ∷ (0x80 + c % 64) ∷ bs) (omega arith)
    ∙ complete c
        ((((0xf0 + c / 0x40000 - 0xf0) * 64 + (0x80 + c / 4096 % 64 - 0x80)) * 64
              + (0x80 + c / 64 % 64 - 0x80))
            * 64
          + (0x80 + c % 64 - 0x80))
        bs (omega arith)

decode_from-encode_char :
    (c : ℕ) (bs : List ℕ) → decode_from 0 0 (encode_char c ++ bs) ≡ c ∷ decode_from 0 0 bs
decode_from-encode_char c bs = elim (Bool-cases (ltb c 0x80)) [
  | inl e ↦ ap (λ x. decode_from 0 0 (x ++ bs)) (char_one c e) ∙ lead_one c bs (ground arith)
  | inr e ↦ elim (Bool-cases (ltb c 0x800)) [
    | inl f ↦ ap (λ x. decode_from 0 0 (x ++ bs)) (char_two c e f) ∙ two_bytes c bs (ground arith)
    | inr f ↦ elim (Bool-cases (ltb c 0x10000)) [
      | inl g ↦
          ap (λ x. decode_from 0 0 (x ++ bs)) (char_three c e f g) ∙ three_bytes c bs (ground arith)
      | inr g ↦ ap (λ x. decode_from 0 0 (x ++ bs)) (char_four c e f g) ∙ four_bytes c bs
    ]
  ]
]

decode_from-encode_scalars : (cs : List ℕ) → decode_from 0 0 (encode_scalars cs) ≡ cs
unfolding encode_scalars decode_from
decode_from-encode_scalars [] = refl
decode_from-encode_scalars (c ∷ cs) =
    decode_from-encode_char c (encode_scalars cs) ∙ ap (◌∷◌ c) (decode_from-encode_scalars cs)

pub decode_utf8-encode : (us : List ℕ) → decode_utf8 (encode us) ≡ scalars us
unfolding decode_utf8 encode
decode_utf8-encode us = decode_from-encode_scalars (scalars us)
