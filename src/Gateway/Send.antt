-- ===== src/Gateway/Send.antt =====
-- Sending responses (ws_server/src/ws_server.c).
use wireless_gateway.Prelude.{
  ℕ, zero, suc, Bool, true, false, List, [], ◌∷◌, ◌++◌, none, some, Text, ◌==◌, if◌then◌else◌,
}
use wireless_gateway.Gateway.State.{Call, Frame, text, Server, answer, rest, spend, call_fid_match}
use wireless_gateway.Gateway.Response.{response_text, status_text}

-- ws_conn_send_async
unfoldable pub send_frame : ℕ → Frame → Server → Server × Bool
send_frame fd frame s =
    if answer s.sends
    then (record s { sends = rest s.sends; outbox = s.outbox ++ (fd, frame) ∷ [] }, true)
    else (record s { sends = rest s.sends }, false)

-- The response to one call: nothing for a call that is over.
unfoldable pub send_json : Call → Text → Server → Server × Bool
unfolding send_frame
send_json c json s = elim c.session [
  | none ↦ (s, false)
  | some fd ↦
      if answer s.mallocs
      then send_frame fd (text (response_text c.fid c.id json)) (spend s)
      else (spend s, false)
]

unfoldable pub send_status : Call → ℕ → Server → Server × Bool
send_status c sta s = send_json c (status_text sta) s

-- The targets in a list, in order; the result is that of the last send.
unfoldable pub send_each : ℕ → Text → List Call → Server × Bool → Server × Bool
send_each fid json [] r = r
send_each fid json (c ∷ cs) r = send_each fid json cs (
    if call_fid_match fid c
    then elim c.session [ none ↦ r | some fd ↦ send_frame fd (text (response_text fid 0 json)) r.0 ]
    else r)

abbrev pub any_match : ℕ → List Call → Bool
any_match fid [] = false
any_match fid (c ∷ cs) = if call_fid_match fid c then true else any_match fid cs

-- bApiCallSendJsonFidGroup: those that wait for a response first.
unfoldable pub send_json_fid_group : ℕ → Text → Server → Server × Bool
unfolding send_each send_frame
send_json_fid_group fid json s =
    if fid == 0
    then (s, false)
    else if any_match fid s.waiting
    then group
    else if any_match fid s.calls
    then group
    else (s, false)
  where
    group : Server × Bool
    group =
        if answer s.mallocs
        then send_each fid json s.calls (send_each fid json s.waiting (spend s, true))
        else (spend s, false)

-- vApiCallComplete, on the call itself
unfoldable pub complete_call : Call → Call
complete_call c = elim c.pending [
  | zero ↦ record c { session = none }
  | suc zero ↦ record c { session = none; pending = 0 }
  | suc (suc n) ↦ record c { pending = suc n }
]

abbrev pub complete_at : ℕ → List Call → List Call
complete_at i [] = []
complete_at zero (c ∷ cs) = complete_call c ∷ cs
complete_at (suc i) (c ∷ cs) = c ∷ complete_at i cs

-- A call is known by its list and its place there; one that is in neither list is left alone.
unfoldable pub api_call_complete : Bool → ℕ → Server → Server
api_call_complete true i s = record s { calls = complete_at i s.calls }
api_call_complete false i s = record s { waiting = complete_at i s.waiting }
