-- ===== src/Terminal/Json.antt =====
-- What `JSON.parse` gives to script.js, with the JavaScript operations that the handlers apply to it.
-- Numbers stand for themselves by the text that `String(n)` gives; keys of an object are distinct.
use wireless_gateway.Prelude.{
  Bool, true, false, not, [], ◌++◌, Option, none, some, Text, codes, text_eq, if◌then◌else◌,
}

mutual
  pub data Json : Type 0 where
    null : Json
    bool : Bool → Json
    num : Text → Json
    str : Text → Json
    arr : Items → Json
    obj : Members → Json

  pub data Items : Type 0 where
    nil : Items
    item : Json → Items → Items

  pub data Members : Type 0 where
    end : Members
    member : Text → Json → Members → Members

-- `none` is undefined.
unfoldable pub lookup : Text → Members → Option Json
lookup key end = none
lookup key (member k v rest) = if text_eq k key then some v else lookup key rest

-- `v.key`, for a key that strings, numbers and arrays do not have. On `null` it is a TypeError.
abbrev pub property : Text → Json → Option Json
property key null = none
property key (bool b) = none
property key (num n) = none
property key (str s) = none
property key (arr items) = none
property key (obj ms) = lookup key ms

abbrev pub is_null : Json → Bool
is_null null = true
is_null (bool b) = false
is_null (num n) = false
is_null (str s) = false
is_null (arr items) = false
is_null (obj ms) = false

unfoldable pub is_truthy : Json → Bool
is_truthy null = false
is_truthy (bool b) = b
is_truthy (num n) = not (text_eq n (codes "0"))
is_truthy (str s) = not (text_eq s [])
is_truthy (arr items) = true
is_truthy (obj ms) = true

-- `v === text`
abbrev pub is_string : Text → Option Json → Bool
is_string t none = false
is_string t (some null) = false
is_string t (some (bool b)) = false
is_string t (some (num n)) = false
is_string t (some (str s)) = text_eq s t
is_string t (some (arr items)) = false
is_string t (some (obj ms)) = false

-- `String(v)`; an array joins its elements, and writes nothing for `null`.
unfoldable mutual
  pub to_text : Json → Text
  to_text null = codes "null"
  to_text (bool b) = if b then codes "true" else codes "false"
  to_text (num n) = n
  to_text (str s) = s
  to_text (arr items) = join_items items
  to_text (obj ms) = codes "[object Object]"

  pub join_items : Items → Text
  join_items nil = []
  join_items (item v rest) = element v ++ join_rest rest

  pub join_rest : Items → Text
  join_rest nil = []
  join_rest (item v rest) = codes "," ++ element v ++ join_rest rest

  pub element : Json → Text
  element null = []
  element (bool b) = if b then codes "true" else codes "false"
  element (num n) = n
  element (str s) = s
  element (arr items) = join_items items
  element (obj ms) = codes "[object Object]"
