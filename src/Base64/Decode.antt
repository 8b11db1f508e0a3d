-- ===== src/Base64/Decode.antt =====
-- `atob`: white space is dropped, padding is optional, and any other stray character is an error.
use wireless_gateway.Prelude.{
  ℕ, ◌+◌, ◌*◌, ◌/◌, ◌%◌, Bool, ◌||◌, List, [], ◌∷◌, Option, none, some, Text, ◌==◌, if◌then◌else◌,
  length,
}
use wireless_gateway.Base64.{pad, char_sextet}

unfoldable pub is_space : ℕ → Bool
is_space c = c == 9 || c == 10 || c == 12 || c == 13 || c == 32

unfoldable pub strip_space : Text → Text
strip_space [] = []
strip_space (c ∷ cs) = let rest = strip_space cs in if is_space c then rest else c ∷ rest

-- One or two padding characters at the end.
unfoldable pub drop_pad : Text → Text
drop_pad [] = []
drop_pad (c ∷ []) = if c == pad then [] else c ∷ []
drop_pad (c ∷ d ∷ []) = if d == pad then (if c == pad then [] else c ∷ []) else c ∷ d ∷ []
drop_pad (c ∷ d ∷ e ∷ rest) = c ∷ drop_pad (d ∷ e ∷ rest)

abbrev pub bind_option : {A B : Type 0} → Option A → (A → Option B) → Option B
bind_option none f = none
bind_option (some a) f = f a

unfoldable pub sextets : Text → Option (List ℕ)
sextets [] = some []
sextets (c ∷ cs) = bind_option (char_sextet c) (λ v. bind_option (sextets cs) (λ vs. some (v ∷ vs)))

unfoldable pub join_sextets : List ℕ → Option (List ℕ)
join_sextets [] = some []
join_sextets (p ∷ []) = none
join_sextets (p ∷ q ∷ []) = some ((p * 4 + q / 16) ∷ [])
join_sextets (p ∷ q ∷ r ∷ []) = some ((p * 4 + q / 16) ∷ (q % 16 * 16 + r / 4) ∷ [])
join_sextets (p ∷ q ∷ r ∷ s ∷ rest) =
    bind_option (join_sextets rest)
      (λ bs. some ((p * 4 + q / 16) ∷ (q % 16 * 16 + r / 4) ∷ (r % 4 * 64 + s) ∷ bs))

unfoldable pub atob : Text → Option (List ℕ)
unfolding strip_space drop_pad sextets join_sextets is_space
atob text =
    let t = strip_space text in
    bind_option (sextets (if length t % 4 == 0 then drop_pad t else t)) join_sextets
