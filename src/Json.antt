-- ===== src/Json.antt =====
-- What the firmware uses of the cJSON library, which is not part of the repository, and of the C
-- library's `strtol`. The operations of cJSON are a parameter of the code that calls them.
pub mod Strtol
use wireless_gateway.Prelude.{Option, Text}
use wireless_gateway.Prelude.Int.{ℤ}

-- A node as cJSON_IsNumber (with `valueint`), cJSON_IsString (with `valuestring`) and no other test
-- of the firmware see it.
pub data Kind : Type 0 where
  number : ℤ → Kind
  string : Text → Kind
  other : Kind

-- cJSON_ParseWithLengthOpts, cJSON_GetObjectItem, cJSON_PrintUnformatted.
pub record CJson : Type 1 where
  pub Node : Type 0
  pub parse : Text → Option Node
  pub item : Node → Text → Option Node
  pub kind : Node → Kind
  pub print : Node → Text
