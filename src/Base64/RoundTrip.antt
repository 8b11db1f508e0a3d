-- ===== src/Base64/RoundTrip.antt =====
-- What `btoa` writes, `atob` reads back.
use wireless_gateway.Prelude.{
  ℕ, ◌+◌, ◌*◌, ◌/◌, ◌%◌, ◌<◌, ◌≡◌, refl, ◌∙◌, true, false, List, [], ◌∷◌, Option, none, some, arith,
  Text, ◌==◌, length, All,
}
use wireless_gateway.Base64.{pad, sextet_char, char_sextet, btoa}
use wireless_gateway.Base64.Decode.{
  is_space, strip_space, drop_pad, bind_option, sextets, join_sextets, atob,
}

abbrev pub IsByte : ℕ → Type 0
IsByte b = b < 256

pub char_sextet-sextet_char : (v : ℕ) → v < 64 → char_sextet (sextet_char v) ≡ some v
unfolding char_sextet sextet_char
char_sextet-sextet_char v h = ground arith

sextet_char_plain : (v : ℕ) → (is_space (sextet_char v) ≡ false) × ((sextet_char v == pad) ≡ false)
unfolding is_space sextet_char
sextet_char_plain v = ground arith

strip_space-btoa : (bs : List ℕ) → strip_space (btoa bs) ≡ btoa bs
unfolding strip_space btoa
strip_space-btoa [] = refl
strip_space-btoa (a ∷ []) =
    rw ((sextet_char_plain (a / 4)).0, (sextet_char_plain (a % 4 * 16)).0) (unfold is_space in refl)
strip_space-btoa (a ∷ b ∷ []) =
    rw
      (
        (sextet_char_plain (a / 4)).0,
        (sextet_char_plain (a % 4 * 16 + b / 16)).0,
        (sextet_char_plain (b % 16 * 4)).0,
      )
      (unfold is_space in refl)
strip_space-btoa (a ∷ b ∷ c ∷ rest) = rw (
  (sextet_char_plain (a / 4)).0,
  (sextet_char_plain (a % 4 * 16 + b / 16)).0,
  (sextet_char_plain (b % 16 * 4 + c / 64)).0,
  (sextet_char_plain (c % 64)).0,
  strip_space-btoa rest,
)

pub length-btoa : (bs : List ℕ) → length (btoa bs) ≡ (length bs + 2) / 3 * 4
unfolding btoa
length-btoa [] = refl
length-btoa (a ∷ []) = refl
length-btoa (a ∷ b ∷ []) = refl
length-btoa (a ∷ b ∷ c ∷ rest) = omega (arith, length-btoa rest)

drop_pad-chunk :
    (w x y z : ℕ) (rest : List ℕ)
    → (z == pad) ≡ false
    → drop_pad (w ∷ x ∷ y ∷ z ∷ btoa rest) ≡ w ∷ x ∷ y ∷ z ∷ drop_pad (btoa rest)
unfolding drop_pad btoa
drop_pad-chunk w x y z [] h = rw h
drop_pad-chunk w x y z (a ∷ []) h = refl
drop_pad-chunk w x y z (a ∷ b ∷ []) h = refl
drop_pad-chunk w x y z (a ∷ b ∷ c ∷ rest) h = refl

-- The decoder after white space and padding are gone.
abbrev decode_rest : List ℕ → Option (List ℕ)
decode_rest bs = bind_option (sextets (drop_pad (btoa bs))) join_sextets

abbrev push : ℕ → Option (List ℕ) → Option (List ℕ)
push v t = bind_option t (λ vs. some (v ∷ vs))

join_four :
    (p q r s : ℕ) (t : Option (List ℕ)) (bs : List ℕ)
    → bind_option t join_sextets ≡ some bs
    → bind_option (push p (push q (push r (push s t)))) join_sextets
      ≡ some ((p * 4 + q / 16) ∷ (q % 16 * 16 + r / 4) ∷ (r % 4 * 64 + s) ∷ bs)
unfolding join_sextets
join_four p q r s none bs h = cc
join_four p q r s (some vs) bs h = rw h

-- A chunk of four characters is decoded, and the rest is as it would be alone.
decode_chunk :
    (p q r s : ℕ) (rest bs : List ℕ) (t : Text)
    → (p < 64) × (q < 64) × (r < 64) × (s < 64)
    → t ≡ sextet_char p ∷ sextet_char q ∷ sextet_char r ∷ sextet_char s ∷ drop_pad (btoa rest)
    → decode_rest rest ≡ some bs
    → bind_option (sextets t) join_sextets
      ≡ some ((p * 4 + q / 16) ∷ (q % 16 * 16 + r / 4) ∷ (r % 4 * 64 + s) ∷ bs)
unfolding sextets
decode_chunk p q r s rest bs t (hp, hq, hr, hs) e h =
    rw
      (
        e,
        sextets,
        char_sextet-sextet_char p hp,
        char_sextet-sextet_char q hq,
        char_sextet-sextet_char r hr,
        char_sextet-sextet_char s hs,
      )
      (join_four p q r s (sextets (drop_pad (btoa rest))) bs h)

decode_one : (a : ℕ) → a < 256 → decode_rest (a ∷ []) ≡ some (a ∷ [])
unfolding btoa drop_pad sextets join_sextets
decode_one a h =
    rw
      (
        char_sextet-sextet_char (a / 4) (omega arith),
        char_sextet-sextet_char (a % 4 * 16) (omega arith),
      )
      (ground arith)

decode_two : (a b : ℕ) → a < 256 → b < 256 → decode_rest (a ∷ b ∷ []) ≡ some (a ∷ b ∷ [])
unfolding btoa drop_pad sextets join_sextets
decode_two a b ha hb =
    rw
      (
        (sextet_char_plain (b % 16 * 4)).1,
        char_sextet-sextet_char (a / 4) (omega arith),
        char_sextet-sextet_char (a % 4 * 16 + b / 16) (omega arith),
        char_sextet-sextet_char (b % 16 * 4) (omega arith),
      )
      (ground arith)

three_bytes :
    (a b c : ℕ) (rest : List ℕ)
    → a < 256
    → b < 256
    → c < 256
    → some (
        (a / 4 * 4 + (a % 4 * 16 + b / 16) / 16)
        ∷ ((a % 4 * 16 + b / 16) % 16 * 16 + (b % 16 * 4 + c / 64) / 4)
        ∷ ((b % 16 * 4 + c / 64) % 4 * 64 + c % 64)
        ∷ rest)
      ≡ some (a ∷ b ∷ c ∷ rest)
three_bytes a b c rest ha hb hc = ground arith

decode_rest-btoa : (bs : List ℕ) → All IsByte bs → decode_rest bs ≡ some bs
unfolding btoa
decode_rest-btoa [] h = unfold sextets drop_pad join_sextets in refl
decode_rest-btoa (a ∷ []) h = decode_one a h.0
decode_rest-btoa (a ∷ b ∷ []) h = decode_two a b h.0 h.1.0
decode_rest-btoa (a ∷ b ∷ c ∷ rest) h =
    decode_chunk (a / 4) (a % 4 * 16 + b / 16) (b % 16 * 4 + c / 64) (c % 64) rest rest _
      (omega arith, omega arith, omega arith, omega arith)
      (drop_pad-chunk (sextet_char (a / 4)) (sextet_char (a % 4 * 16 + b / 16))
        (sextet_char (b % 16 * 4 + c / 64)) (sextet_char (c % 64)) rest
        (sextet_char_plain (c % 64)).1)
      (decode_rest-btoa rest h.1.1.1)
    ∙ three_bytes a b c rest h.0 h.1.0 h.1.1.0

-- Every sequence of bytes comes back from its Base64 text.
pub atob-btoa : (bs : List ℕ) → All IsByte bs → atob (btoa bs) ≡ some bs
unfolding atob
atob-btoa bs h = rw (strip_space-btoa bs, length_multiple) (decode_rest-btoa bs h)
  where
    length_multiple : (length (btoa bs) % 4 == 0) ≡ true
    length_multiple = ground (arith, length-btoa bs)
