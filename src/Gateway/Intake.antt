-- ===== src/Gateway/Intake.antt =====
-- The callbacks of the transport: connections, frames, and the intake of API calls
-- (ws_server/src/ws_server.c). A tick is read once in a callback, `now`.
use wireless_gateway.Prelude.{
  ℕ, zero, suc, Bool, ◌&&◌, ◌%◌, ◌||◌, [], ◌∷◌, ◌++◌, Option, none, some, Text, codes, map, ◌==◌,
  if◌then◌else◌, is_some,
}
use wireless_gateway.Prelude.Int.{ℤ, pos, negsuc, to_u32}
use wireless_gateway.Json.{Kind, number, string, other, CJson}
use wireless_gateway.FrameParser.{item_kind, fid_of, number_of}
use wireless_gateway.Gateway.State.{
  Session, Call, pong, close, Server, answer, rest, spend, set_new, break_by_fd, find_session,
  put_session, remove_session, find_key,
}
use wireless_gateway.Gateway.Send.{send_frame, send_status}

abbrev pub status_bad_req : ℕ
status_bad_req = 0x80000000

abbrev pub status_no_handler : ℕ
status_no_handler = 0x8000000e

abbrev pub new_session : ℕ → ℕ → Session
new_session fd now = record { fd = fd; alive_ts = now; ping_ts = now }

unfoldable pub on_connect : ℕ → ℕ → Server → Server
on_connect fd now s =
    if answer s.mallocs
    then record s { mallocs = rest s.mallocs; sessions = new_session fd now ∷ s.sessions }
    else spend s

-- The calls of the connection are broken before its session is freed.
unfoldable pub on_disconnect : ℕ → Server → Server
on_disconnect fd s = elim (find_session fd s.sessions) [
  | none ↦ s
  | some session ↦ record s {
    calls = map (break_by_fd fd) s.calls;
    waiting = map (break_by_fd fd) s.waiting;
    sessions = remove_session fd s.sessions;
  }
]

-- vWsTransferComplete_cb: a failed transfer breaks the calls of its connection. `taken` says whether the
-- mutex was had within its timeout.
unfoldable pub on_transfer_complete : Bool → Bool → ℕ → Server → Server
on_transfer_complete taken err fd s =
    if err && taken
    then record s { calls = map (break_by_fd fd) s.calls; waiting = map (break_by_fd fd) s.waiting }
    else s

-- ARG.RDL, a positive number of milliseconds.
abbrev pub poll_ms : Kind → ℕ
poll_ms (number (pos n)) = n
poll_ms (number (negsuc n)) = 0
poll_ms (string s) = 0
poll_ms other = 0

-- A call goes into the list of calls if its FID has a handler or a queue.
unfoldable pub enqueue : Call → Server → Server
enqueue c s =
    if is_some (find_key c.fid s.handlers) || is_some (find_key c.fid s.fid_queues)
    then record s { calls = s.calls ++ record c { handler = find_key c.fid s.handlers } ∷ [] }
    else (send_status c status_no_handler s).0

-- What is left once FID is accepted: FLAGS and SID are both mandatory.
unfoldable pub accept : Call → Option ℤ → Option ℤ → Server → Server
unfolding enqueue
accept c none sid s = (send_status c status_bad_req s).0
accept c (some flags) none s =
    (send_status (record c { flags = set_new (to_u32 flags) }) status_bad_req s).0
accept c (some flags) (some sid) s =
    enqueue (record c { flags = set_new (to_u32 flags); id = to_u32 sid % 0x10000 }) s

module _ (cjson : CJson) (ms_to_ticks : ℕ → ℕ) where
  abbrev pub ticks_of : ℕ → ℕ
  ticks_of zero = 0
  ticks_of (suc n) = ms_to_ticks (suc n)

  -- The call before its flags and id are read.
  abbrev pub new_call : ℕ → ℕ → Option cjson.Node → Call
  new_call fd fid arg = record {
    session = some fd;
    req = elim arg [ none ↦ none | some a ↦ some (cjson.print a) ];
    id = 0;
    handler = none;
    fid = fid;
    pending = 1;
    flags = 1;
    poll_interval = elim arg [
      | none ↦ 0
      | some a ↦ ticks_of (poll_ms (item_kind cjson a (codes "RDL")))
    ];
    next_poll = 0;
  }

  unfoldable pub take_call : ℕ → cjson.Node → Server → Server
  unfolding accept
  take_call fd json s =
      let fid = fid_of (item_kind cjson json (codes "FID")) in
      if fid == 0
      then s
      else accept (new_call fd fid (cjson.item json (codes "ARG")))
          (number_of (item_kind cjson json (codes "FLAGS")))
          (number_of (item_kind cjson json (codes "SID"))) s

  -- A text that is not JSON is dropped.
  abbrev pub read_call : ℕ → Option cjson.Node → Server → Server
  read_call fd none s = s
  read_call fd (some json) s = take_call fd json s

  -- ws_server_on_text; an empty payload is the null pointer.
  unfoldable pub on_text : ℕ → Text → Server → Server
  unfolding take_call
  on_text fd [] s = s
  on_text fd (b ∷ bs) s = elim (find_session fd s.sessions) [
    | none ↦ s
    | some session ↦
        if answer s.mallocs then read_call fd (cjson.parse (b ∷ bs)) (spend s) else spend s
  ]

abbrev pub touch : ℕ → Session → Session
touch now t = record t { alive_ts = now }

abbrev pub touch_session : ℕ → ℕ → Server → Server
touch_session fd now s = elim (find_session fd s.sessions) [
  | none ↦ s
  | some t ↦ record s { sessions = put_session (touch now t) s.sessions }
]

pub data FrameType : Type 0 where
  text_type ping_type pong_type close_type other_type : FrameType

module _ (cjson : CJson) (ms_to_ticks : ℕ → ℕ) where
  abbrev pub handle_frame : ℕ → FrameType → Text → Server → Server
  handle_frame fd text_type payload s = on_text cjson ms_to_ticks fd payload s
  handle_frame fd ping_type payload s = (send_frame fd (pong payload) s).0
  handle_frame fd pong_type payload s = s
  handle_frame fd close_type payload s = (send_frame fd close s).0
  handle_frame fd other_type payload s = s

  unfoldable pub on_frame : ℕ → FrameType → Text → ℕ → Server → Server
  on_frame fd type payload now s = handle_frame fd type payload (touch_session fd now s)
