-- ===== src/Gateway/Acceptance.antt =====
-- Which frames become calls: the intake of ws_server/src/ws_server.c against the parser of
-- main/ws_frame_parser.c, which states the checks on their own.
use wireless_gateway.Prelude.{
  ℕ, ◌≡◌, refl, ◌∙◌, true, false, ◌∷◌, Option, none, some, Text, codes, arith, inl, inr, ◌==◌,
  Bool-cases, Option-cases,
}
use wireless_gateway.Prelude.Int.{ℤ}
use wireless_gateway.Json.{CJson}
use wireless_gateway.FrameParser.{
  ParseResult, parsed, no_payload, bad_json, bad_fid, missing_flags, missing_sid, item_kind, fid_of,
  number_of, check_items, ws_frame_parse,
}
use wireless_gateway.Gateway.State.{Session, Call, Server, answer, spend, set_new, find_session}
use wireless_gateway.Gateway.Send.{send_json, send_status}
use wireless_gateway.Gateway.Intake.{
  accept, enqueue, new_call, take_call, read_call, on_text, status_bad_req,
}

-- What the server does with a frame, by the parser's verdict on it. The refusal of a request tells the
-- caller its FID alone, since the id has not been read.
abbrev pub handle_verdict : ParseResult → Call → Server → Server
handle_verdict (parsed f) c s =
    enqueue (record c { fid = f.fid; id = f.sid; flags = set_new f.flags }) s
handle_verdict no_payload c s = s
handle_verdict bad_json c s = s
handle_verdict bad_fid c s = s
handle_verdict missing_flags c s = (send_status c status_bad_req s).0
handle_verdict missing_sid c s = (send_status c status_bad_req s).0

accept-check_items :
    (c : Call) (flags sid : Option ℤ) (s : Server)
    → (c.fid == 0) ≡ false
    → accept c flags sid s ≡ handle_verdict (check_items c.fid flags sid) c s
unfolding accept check_items send_status send_json
accept-check_items c none sid s h = rw h refl
accept-check_items c (some f) none s h = rw h refl
accept-check_items c (some f) (some n) s h = rw h refl

check_items-reserved :
    (fid : ℕ) (flags sid : Option ℤ) → (fid == 0) ≡ true → check_items fid flags sid ≡ bad_fid
unfolding check_items
check_items-reserved fid flags sid h = rw h refl

module _ (cjson : CJson) (ms_to_ticks : ℕ → ℕ) where
  -- The call of a frame, before its flags and id are read.
  abbrev pub call_of : ℕ → Option cjson.Node → Call
  call_of fd none = new_call cjson ms_to_ticks fd 0 none
  call_of fd (some json) =
      new_call cjson ms_to_ticks fd (fid_of (item_kind cjson json (codes "FID")))
        (cjson.item json (codes "ARG"))

  take_call-check_items :
      (fd : ℕ) (json : cjson.Node) (s : Server)
      → take_call cjson ms_to_ticks fd json s
        ≡ handle_verdict
            (check_items
              (fid_of (item_kind cjson json (codes "FID")))
              (number_of (item_kind cjson json (codes "FLAGS")))
              (number_of (item_kind cjson json (codes "SID"))))
            (call_of fd (some json))
            s
  unfolding take_call
  take_call-check_items fd json s =
      elim (Bool-cases (fid_of (item_kind cjson json (codes "FID")) == 0)) [
        | inl e ↦ rw (e, check_items-reserved _ _ _ e) refl
        | inr e ↦ rw e (accept-check_items (call_of fd (some json)) _ _ s e)
      ]

  on_text-read_call :
      (fd b : ℕ) (bs : Text) (session : Session) (s : Server)
      → find_session fd s.sessions ≡ some session
      → answer s.mallocs ≡ true
      → on_text cjson ms_to_ticks fd (b ∷ bs) s
        ≡ read_call cjson ms_to_ticks fd (cjson.parse (b ∷ bs)) (spend s)
  unfolding on_text
  on_text-read_call fd b bs session s found memory = ground arith

  -- A text frame of a client that has a session, where memory holds out, is handled by the verdict that
  -- the stand-alone parser gives on the same text: nothing happens on text that is not JSON or whose FID
  -- is 0 or missing; BAD_REQ is answered where FLAGS or SID is missing; and else the call is queued, or
  -- refused for want of a handler, with the FID, the id and the flags that the parser gives, marked as new.
  pub on_text-ws_frame_parse :
      (fd b : ℕ) (bs : Text) (session : Session) (s : Server)
      → find_session fd s.sessions ≡ some session
      → answer s.mallocs ≡ true
      → on_text cjson ms_to_ticks fd (b ∷ bs) s
        ≡ handle_verdict
            (ws_frame_parse cjson (b ∷ bs))
            (call_of fd (cjson.parse (b ∷ bs)))
            (spend s)
  unfolding ws_frame_parse
  on_text-ws_frame_parse fd b bs session s found memory =
      on_text-read_call fd b bs session s found memory ∙ verdict
    where
      verdict :
          read_call cjson ms_to_ticks fd (cjson.parse (b ∷ bs)) (spend s)
          ≡ handle_verdict
              (ws_frame_parse cjson (b ∷ bs))
              (call_of fd (cjson.parse (b ∷ bs)))
              (spend s)
      verdict = elim (Option-cases (cjson.parse (b ∷ bs))) [
        | inl e ↦ rw (e, ws_frame_parse) refl
        | inr (json, e) ↦ rw (e, ws_frame_parse) (take_call-check_items fd json (spend s))
      ]
