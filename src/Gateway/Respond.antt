-- ===== src/Gateway/Respond.antt =====
-- The third part of a worker's pass (ws_server/src/ws_server.c): the responses of the peripherals.
--
-- A handler is known by a number, and each of its invocations is recorded with the message.
use wireless_gateway.Prelude.{
  ℕ, Bool, true, false, List, [], ◌∷◌, ◌++◌, Option, none, some, Text, ◌==◌, if◌then◌else◌,
}
use wireless_gateway.Gateway.State.{
  Call, Msg, Server, flag_long_term, has_flag, call_id_match, call_fid_match, add32,
}
use wireless_gateway.Gateway.Send.{send_json}
use wireless_gateway.Gateway.Serve.{serve}
use wireless_gateway.Gateway.Forward.{forward}

abbrev pub has_payload : Option Text → Bool
has_payload none = false
has_payload (some []) = false
has_payload (some (b ∷ bs)) = true

abbrev pub payload_text : Option Text → Text
payload_text none = []
payload_text (some t) = t

abbrev pub invoke : Call → Msg → Server → Server
invoke c msg s = elim c.handler [
  | none ↦ s
  | some h ↦ record s { invoked = s.invoked ++ (h, msg) ∷ [] }
]

-- A long-term call goes back to the calls, to be polled again after its interval; any other is freed.
abbrev pub rearm : ℕ → Call → Server → Server
rearm now c s =
    if has_flag c.flags flag_long_term
    then record s { calls = s.calls ++ record c { next_poll = add32 now c.poll_interval } ∷ [] }
    else s

-- A response for a call that has been taken from the waiting list.
unfoldable pub deliver : ℕ → Msg → Call → Server → Server
deliver now msg c s =
    let s' = invoke c msg s in
    rearm now c
      (if has_payload msg.payload then (send_json c (payload_text msg.payload) s').0 else s')

unfoldable pub broadcast_list : ℕ → Msg → List Call → Server → List Call × Server
broadcast_list now msg [] s = ([], s)
broadcast_list now msg (c ∷ cs) s = elim (call_fid_match msg.fid c) [
  | true ↦ broadcast_list now msg cs (deliver now msg c s)
  | false ↦ let (others, s') = broadcast_list now msg cs s in (c ∷ others, s')
]

abbrev pub put_back : Call → Option (Call × List Call) → Option (Call × List Call)
put_back c none = none
put_back c (some (d, others)) = some (d, c ∷ others)

-- The first call that a test finds, and the list without it.
unfoldable pub take_first : (Call → Bool) → List Call → Option (Call × List Call)
take_first p [] = none
take_first p (c ∷ cs) =
    let later = put_back c (take_first p cs) in if p c then some (c, cs) else later

-- A message that no waiting call has the id of is dropped.
abbrev pub answer_first : ℕ → Msg → Option (Call × List Call) → Server → Server
answer_first now msg none s = s
answer_first now msg (some (c, others)) s = deliver now msg c (record s { waiting = others })

-- One message from a peripheral; id 0 is a broadcast to all that wait on its FID.
unfoldable pub respond : ℕ → Msg → Server → Server
unfolding broadcast_list take_first
respond now msg s =
    if msg.id == 0
    then (let (kept, s') = broadcast_list now msg s.waiting s in record s' { waiting = kept })
    else answer_first now msg (take_first (call_id_match msg.id) s.waiting) s

unfoldable pub respond_all : ℕ → List Msg → Server → Server
respond_all now [] s = s
respond_all now (m ∷ ms) s = respond_all now ms (respond now m s)

-- vWsApiCallWorkerStep, with the messages that its queue gives.
unfoldable pub worker_step : ℕ → List Msg → Server → Server
worker_step now msgs s = respond_all now msgs (forward now (serve now s))
