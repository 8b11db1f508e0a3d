-- ===== src/FrameParser.antt =====
-- main/ws_frame_parser.c: the validation of a WebSocket text frame.
use wireless_gateway.Prelude.{ℕ, ◌%◌, [], ◌∷◌, Option, none, some, Text, codes, ◌==◌, if◌then◌else◌}
use wireless_gateway.Prelude.Int.{ℤ, to_u32}
use wireless_gateway.Json.{Kind, number, string, other, CJson}
use wireless_gateway.Json.Strtol.{strtol_hex}

pub record ParsedFrame : Type 0 where
  pub fid : ℕ
  pub sid : ℕ
  pub flags : ℕ

pub data ParseResult : Type 0 where
  parsed : ParsedFrame → ParseResult
  no_payload bad_json bad_fid missing_flags missing_sid : ParseResult

module _ (cjson : CJson) where
  -- The kind of an item; a missing one is no number and no string.
  abbrev pub item_kind : cjson.Node → Text → Kind
  item_kind json key = elim (cjson.item json key) [ none ↦ other | some n ↦ cjson.kind n ]

abbrev pub fid_of : Kind → ℕ
fid_of (number n) = to_u32 n
fid_of (string s) = strtol_hex s
fid_of other = 0

abbrev pub number_of : Kind → Option ℤ
number_of (number n) = some n
number_of (string s) = none
number_of other = none

-- The checks after the text is parsed, on the kinds of FID, FLAGS and SID.
unfoldable pub check_items : ℕ → Option ℤ → Option ℤ → ParseResult
check_items fid flags sid = if fid == 0 then bad_fid else elim flags [
  | none ↦ missing_flags
  | some f ↦ elim sid [
    | none ↦ missing_sid
    | some s ↦ parsed (record { fid = fid; sid = to_u32 s % 0x10000; flags = to_u32 f })
  ]
]

module _ (cjson : CJson) where
  unfoldable pub ws_frame_parse : Text → ParseResult
  unfolding check_items
  ws_frame_parse [] = no_payload
  ws_frame_parse (c ∷ cs) = elim (cjson.parse (c ∷ cs)) [
    | none ↦ bad_json
    | some json ↦
        check_items (fid_of (item_kind cjson json (codes "FID")))
          (number_of (item_kind cjson json (codes "FLAGS")))
          (number_of (item_kind cjson json (codes "SID")))
  ]
