-- ===== src/Terminal/Utf8/Scalars.antt =====
-- About the code points of a JavaScript string, and the bytes that they are encoded as.
use wireless_gateway.Prelude.{
  ℕ, ◌≡◌, true, List, [], ◌∷◌, Option, none, some, if◌then◌else◌, All, All-append, arith,
}
use wireless_gateway.Terminal.Utf8.{
  IsCodeUnit, IsScalar, is_high, emitted, scalars_after, scalars, encode_char, encode_scalars,
  encode,
}
use wireless_gateway.Base64.RoundTrip.{IsByte}

-- What waits for its partner is a high surrogate.
abbrev IsWaiting : Option ℕ → Type 0
IsWaiting none = Unit
IsWaiting (some h) = is_high h ≡ true

emitted-IsScalar :
    (waiting : Option ℕ) (u : ℕ)
    → IsWaiting waiting
    → IsCodeUnit u
    → All IsScalar (emitted waiting u)
unfolding emitted
emitted-IsScalar none u w h = ground arith
emitted-IsScalar (some x) u w h = ground arith

next-IsWaiting : (u : ℕ) → IsWaiting (if is_high u then some u else none)
next-IsWaiting u = ground arith

scalars_after-IsScalar :
    (waiting : Option ℕ) (us : List ℕ)
    → IsWaiting waiting
    → All IsCodeUnit us
    → All IsScalar (scalars_after waiting us)
unfolding scalars_after
scalars_after-IsScalar none [] w h = tt
scalars_after-IsScalar (some x) [] w h = ground arith
scalars_after-IsScalar none (u ∷ us) w h =
    All-append IsScalar (emitted none u) (scalars_after (if is_high u then some u else none) us)
      (emitted-IsScalar none u w h.0)
      (scalars_after-IsScalar (if is_high u then some u else none) us (next-IsWaiting u) h.1)
scalars_after-IsScalar (some x) (u ∷ us) w h =
    All-append IsScalar (emitted (some x) u) (scalars_after (if is_high u then some u else none) us)
      (emitted-IsScalar (some x) u w h.0)
      (scalars_after-IsScalar (if is_high u then some u else none) us (next-IsWaiting u) h.1)

pub scalars-IsScalar : (us : List ℕ) → All IsCodeUnit us → All IsScalar (scalars us)
unfolding scalars
scalars-IsScalar us h = scalars_after-IsScalar none us tt h

encode_char-IsByte : (c : ℕ) → IsScalar c → All IsByte (encode_char c)
unfolding encode_char
encode_char-IsByte c h = ground arith

encode_scalars-IsByte : (cs : List ℕ) → All IsScalar cs → All IsByte (encode_scalars cs)
unfolding encode_scalars
encode_scalars-IsByte [] h = tt
encode_scalars-IsByte (c ∷ cs) h =
    All-append IsByte (encode_char c) (encode_scalars cs) (encode_char-IsByte c h.0)
      (encode_scalars-IsByte cs h.1)

pub encode-IsByte : (us : List ℕ) → All IsCodeUnit us → All IsByte (encode us)
unfolding encode
encode-IsByte us h = encode_scalars-IsByte (scalars us) (scalars-IsScalar us h)
