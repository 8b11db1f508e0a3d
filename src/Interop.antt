-- ===== src/Interop.antt =====
-- The commands of the web terminal (main/flash_data/terminal/script.js) as the gateway's frame parser
-- reads them (main/ws_frame_parser.c).
pub mod Tests
use wireless_gateway.Prelude.{
  ℕ, ◌%◌, ◌≤◌, ◌≡◌, refl, List, [], ◌∷◌, Option, none, some, Text, codes, IsIn, All-IsIn, arith,
  ◌⊎◌, inl, inr, sym, ap, ◌∙◌,
}
use wireless_gateway.Prelude.Int.{pos, to_u32}
use wireless_gateway.Json.{CJson, number, string}
use wireless_gateway.Json.Strtol.{
  strtol_hex, skip_space, signed, skip_prefix, hex_digits, hex_value,
}
use wireless_gateway.FrameParser.{
  ParsedFrame, ParseResult, parsed, item_kind, fid_of, number_of, check_items, ws_frame_parse,
}
use wireless_gateway.Terminal.World.{Packet, Page, Browser}
use wireless_gateway.Terminal.Session.{rx_fid, register_command}
use wireless_gateway.Terminal.Traffic.{tx_fid, tx_command}
use wireless_gateway.Terminal.Events.{Event, start, run}
use wireless_gateway.Terminal.Invariant.{IsCommand, SentCommand, registers, transmits}
use wireless_gateway.Terminal.Invariant.Run.{run-start-Inv}

rx_fid-strtol_hex : strtol_hex rx_fid ≡ 0x1021
unfolding strtol_hex skip_space signed skip_prefix hex_digits hex_value
rx_fid-strtol_hex = refl

tx_fid-strtol_hex : strtol_hex tx_fid ≡ 0x1022
unfolding strtol_hex skip_space signed skip_prefix hex_digits hex_value
tx_fid-strtol_hex = refl

-- The text of a packet, as cJSON reads what `JSON.stringify` prints: the three keys with their values.
pub record Prints (cjson : CJson) (p : Packet) (sid c : ℕ) (cs : Text) : Type 0 where
  pub node : cjson.Node
  pub parses : cjson.parse (c ∷ cs) ≡ some node
  pub fid : item_kind cjson node (codes "FID") ≡ string p.fid
  pub flags : item_kind cjson node (codes "FLAGS") ≡ number (pos p.flags)
  pub sid_item : item_kind cjson node (codes "SID") ≡ number (pos sid)
  pub sid_value : p.sid ≡ some sid

check_items-used :
    (fid sid flags : ℕ)
    → 1 ≤ fid
    → sid ≤ 0xffff
    → flags ≤ 8
    → check_items fid (some (pos flags)) (some (pos sid))
      ≡ parsed (record { fid = fid; sid = sid; flags = flags })
unfolding check_items to_u32
check_items-used fid sid flags used range small = ground arith

ws_frame_parse-some :
    (cjson : CJson) (node : cjson.Node) (c : ℕ) (cs : Text)
    → cjson.parse (c ∷ cs) ≡ some node
    → ws_frame_parse cjson (c ∷ cs)
      ≡ check_items
          (fid_of (item_kind cjson node (codes "FID")))
          (number_of (item_kind cjson node (codes "FLAGS")))
          (number_of (item_kind cjson node (codes "SID")))
unfolding ws_frame_parse
ws_frame_parse-some cjson node c cs e = rw (e, ws_frame_parse) refl

Prints-parsed :
    (cjson : CJson) (p : Packet) (sid c : ℕ) (cs : Text)
    → Prints cjson p sid c cs
    → 1 ≤ strtol_hex p.fid
    → (sid ≤ 0xffff)
    → (p.flags ≤ 8)
    → ws_frame_parse cjson (c ∷ cs)
      ≡ parsed (record { fid = strtol_hex p.fid; sid = sid; flags = p.flags })
Prints-parsed cjson p sid c cs t used range small =
    ws_frame_parse-some cjson t.node c cs t.parses
    ∙ ap
        (λ k.
          check_items (fid_of k) (number_of (item_kind cjson t.node (codes "FLAGS")))
            (number_of (item_kind cjson t.node (codes "SID"))))
        t.fid
    ∙ ap
        (λ k.
          check_items (strtol_hex p.fid) (number_of k)
            (number_of (item_kind cjson t.node (codes "SID"))))
        t.flags
    ∙ ap (λ k. check_items (strtol_hex p.fid) (some (pos p.flags)) (number_of k)) t.sid_item
    ∙ check_items-used (strtol_hex p.fid) sid p.flags used range small

command_facts :
    (p : Packet) (sid : ℕ)
    → IsCommand p
    → p.sid ≡ some sid
    → (1 ≤ sid)
      × (sid ≤ 0xffff)
      × (p.flags ≤ 8)
      × ((strtol_hex p.fid ≡ 0x1021) ⊎ (strtol_hex p.fid ≡ 0x1022))
command_facts p sid (registers s range e) drawn = ground (arith, e, drawn, range, rx_fid-strtol_hex)
command_facts p sid (transmits s arg range e) drawn =
    ground (arith, e, drawn, range, tx_fid-strtol_hex)

-- Every command that the page sends, in any run from a new page, is accepted by the gateway's parser,
-- where the text is one that cJSON reads as an object with the command's FID, FLAGS and SID: as a call of
-- 0x1021 or 0x1022, under the page's session id, which is not the broadcasts' 0, and with its flags.
pub run-parsed :
    (cjson : CJson) (page : Page) (browser : Browser) (es : List Event) (socket : ℕ) (p : Packet)
    (sid c : ℕ) (cs : Text)
    → browser.sent ≡ []
    → IsIn (socket, p) (run es (start page browser)).browser.sent
    → Prints cjson p sid c cs
    → (ws_frame_parse cjson (c ∷ cs)
        ≡ parsed (record { fid = strtol_hex p.fid; sid = sid; flags = p.flags }))
      × ((strtol_hex p.fid ≡ 0x1021) ⊎ (strtol_hex p.fid ≡ 0x1022))
      × (1 ≤ sid)
run-parsed cjson page browser es socket p sid c cs none_sent sent t =
    let invariant = run-start-Inv page browser es none_sent in
    let command = All-IsIn SentCommand _ (socket, p) invariant.commands sent in
    let (low, high, small, fid) = command_facts p sid command t.sid_value in
    (Prints-parsed cjson p sid c cs t (fid_positive (strtol_hex p.fid) fid) high small, fid, low)
  where
    fid_positive : (n : ℕ) → (n ≡ 0x1021) ⊎ (n ≡ 0x1022) → 1 ≤ n
    fid_positive n (inl e) = omega (arith, e)
    fid_positive n (inr e) = omega (arith, e)
