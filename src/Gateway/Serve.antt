-- ===== src/Gateway/Serve.antt =====
-- The first part of a worker's pass (ws_server/src/ws_server.c): idle sessions are pinged, and calls
-- that are over are freed. `now` is the tick.
use wireless_gateway.Prelude.{ℕ, Bool, ◌&&◌, List, [], ◌∷◌, Option, none, some, leb, if◌then◌else◌}
use wireless_gateway.Gateway.State.{Session, Call, ping, Server, find_session, put_session, sub32}
use wireless_gateway.Gateway.Send.{send_frame, complete_call}

abbrev pub ping_delay : ℕ
ping_delay = 1000

-- A ping that cannot be sent completes the call.
unfoldable pub ping_session : ℕ → Session → Call → Server → Option Call × Server
ping_session now t c s =
    let (s', sent) = send_frame t.fd ping s in
    if sent
    then (some c, record s' { sessions = put_session (record t { ping_ts = now }) s'.sessions })
    else (some (complete_call c), s')

abbrev pub is_idle : ℕ → Session → Bool
is_idle now t = leb ping_delay (sub32 now t.alive_ts) && leb ping_delay (sub32 now t.ping_ts)

-- vServeApiCall: a broken call is freed, and an idle session is pinged.
unfoldable pub serve_call : ℕ → Call → Server → Option Call × Server
unfolding ping_session
serve_call now c s = elim c.session [
  | none ↦ (none, s)
  | some fd ↦ elim (find_session fd s.sessions) [
    | none ↦ (some c, s)
    | some t ↦ if is_idle now t then ping_session now t c s else (some c, s)
  ]
]

abbrev pub keep_some : Option Call → List Call → List Call
keep_some none cs = cs
keep_some (some c) cs = c ∷ cs

unfoldable pub serve_list : ℕ → List Call → Server → List Call × Server
serve_list now [] s = ([], s)
serve_list now (c ∷ cs) s =
    let (kept, s') = serve_call now c s in
    let (others, s'') = serve_list now cs s' in (keep_some kept others, s'')

unfoldable pub serve : ℕ → Server → Server
unfolding serve_list
serve now s =
    let (calls, s') = serve_list now s.calls s in
    let (waiting, s'') = serve_list now s.waiting s' in
    record s'' { calls = calls; waiting = waiting }
