-- ===== src/Gateway/Tests.antt =====
-- Runs of the server at concrete inputs.
use wireless_gateway.Prelude.{
  ◌||◌, ◌++◌, length, ℕ, ◌≡◌, ◌≢◌, refl, true, false, [], ◌∷◌, none, some, codes, All, arith,
}
use wireless_gateway.FrameParser.{ws_frame_parse}
use wireless_gateway.Gateway.State.{
  break_call, text, call_id_match, call_client_id_match, find_key, find_session, spend,
}
use wireless_gateway.Gateway.Response.{
  length-response_text, response_len, status_text, response_text,
}
use wireless_gateway.Gateway.Registry.{api_call_register, api_call_unregister}
use wireless_gateway.Gateway.Intake.{on_text, on_disconnect}
use wireless_gateway.Gateway.Forward.{
  status_delivered, message, status_busy, forward_one, forward, status_invalid,
}
use wireless_gateway.Gateway.Send.{send_json_fid_group, any_match}
use wireless_gateway.Gateway.Serve.{serve}
use wireless_gateway.Gateway.Serving.{serve-going_on}
use wireless_gateway.Gateway.Handover.{
  posted, left_argument, confirmed, delivered_frame, forward_one-posts, forward_one-no_memory,
  forward_one-busy,
}
use wireless_gateway.Gateway.Exchange.{IsDue, waiting_call, respond-forward}
use wireless_gateway.Gateway.Group.{public_frames, send_json_fid_group-public_frames}
use wireless_gateway.Gateway.Respond.{respond}
use wireless_gateway.Gateway.Invariant.{Inv}
use wireless_gateway.Gateway.Invariant.Sessions.{Forgets, on_disconnect-Forgets}
use wireless_gateway.Gateway.Invariant.Run.{boot, run, run-boot-Inv}
use wireless_gateway.Gateway.Throttle.{Waits, forward-calls}
use wireless_gateway.Gateway.Routing.{Finds, here, later, answer_frame, rearmed, respond-Finds}
use wireless_gateway.Gateway.Broadcast.{frames_for, others_than, rearmed_all, respond-broadcast}
use wireless_gateway.Gateway.Deletion.{Without, forward_one-Without}
use wireless_gateway.Gateway.Unrouted.{forward_one-unrouted}
use wireless_gateway.Gateway.Acceptance.{handle_verdict, call_of, on_text-ws_frame_parse}
use wireless_gateway.Gateway.Registration.{
  Registers, api_call_register-Registers, IsOver, api_call_unregister-IsOver,
}
use wireless_gateway.Gateway.Samples.{
  starved_server, registration_text, parse_text, one_text, same_ticks, a_message, events, a_call,
  a_session, a_server, busy_server, a_pass, no_queues, served_server, full_server, one_call_server,
}

run-boot-Inv_example : Inv (run one_text same_ticks events (boot [] (true ∷ false ∷ []) []))
run-boot-Inv_example = run-boot-Inv one_text same_ticks events [] (true ∷ false ∷ []) []

Finds-second : Finds (call_id_match 42) busy_server.waiting (a_call 4 42 4) (a_call 3 41 4 ∷ [])
Finds-second = later (a_call 3 41 4) refl (here (a_call 4 42 4) [] refl)

forty_two_nonzero : ◌≢◌ {A = ℕ} 42 0
forty_two_nonzero e = omega (arith, e)

respond-Finds_example :
    let t = respond 30 (a_message 42 (codes "1")) busy_server in
    (t.outbox ≡ (4, answer_frame (a_call 4 42 4) (codes "1")) ∷ [])
    × (t.waiting ≡ a_call 3 41 4 ∷ [])
    × (t.calls ≡ rearmed 30 (a_call 4 42 4))
respond-Finds_example =
    respond-Finds 30 (a_message 42 (codes "1")) busy_server (a_call 4 42 4) (a_call 3 41 4 ∷ []) 4
      b'1' [] forty_two_nonzero refl Finds-second refl refl refl

respond-broadcast_example :
    let t = respond 30 (a_message 0 (codes "1")) busy_server in
    (t.outbox ≡ frames_for 0x1021 (codes "1") busy_server.waiting)
    × (t.waiting ≡ others_than 0x1021 busy_server.waiting)
    × (t.calls ≡ rearmed_all 30 0x1021 busy_server.waiting)
respond-broadcast_example =
    respond-broadcast 30 (a_message 0 (codes "1")) busy_server b'1' [] refl refl refl refl

forward-calls_example :
    All (Waits 30) (forward 30 (a_server (a_call 3 41 5 ∷ a_call 4 42 4 ∷ []) [])).calls
forward-calls_example = forward-calls 30 (a_server (a_call 3 41 5 ∷ a_call 4 42 4 ∷ []) [])

on_text-ws_frame_parse_example :
    on_text one_text same_ticks 3 registration_text (a_server [] [])
    ≡ handle_verdict
        (ws_frame_parse one_text registration_text)
        (call_of one_text same_ticks 3 (parse_text registration_text))
        (spend (a_server [] []))
on_text-ws_frame_parse_example =
    on_text-ws_frame_parse one_text same_ticks 3 b'{'
      (codes "\"FID\":\"0x00001021\",\"SID\":42,\"FLAGS\":4}") (a_session 3) (a_server [] []) refl
      refl

forward_one-Without_example :
    let p = a_pass (a_call 4 42 4 ∷ []) busy_server in
    let q = forward_one 30 (a_call 3 42 9) p in
    let test = call_client_id_match 3 0x1021 42 in
    Without test p.before q.before
    × Without test p.behind q.behind
    × Without test p.server.waiting q.server.waiting
forward_one-Without_example =
    forward_one-Without 30 (a_call 3 42 9) 3 (a_pass (a_call 4 42 4 ∷ []) busy_server) refl refl

forward_one-unrouted_example :
    let q = forward_one 30 (a_call 3 42 1) (a_pass [] no_queues) in
    (q.before ≡ a_call 3 42 4 ∷ [])
    × (q.behind ≡ [])
    × (q.server.waiting ≡ [])
    × (q.server.invoked ≡ [])
    × (q.server.outbox ≡ (3, text (response_text 0x1021 42 (status_text status_invalid))) ∷ [])
forward_one-unrouted_example =
    forward_one-unrouted 30 (a_call 3 42 1) 3 (a_pass [] no_queues) refl refl refl refl refl refl

api_call_register-Registers_example :
    Registers 0x1000
      (some 8)
      (a_server [] [])
      (api_call_register true (some 8) 0x1000 (a_server [] []))
api_call_register-Registers_example =
    api_call_register-Registers true (some 8) 0x1000 (a_server [] [])

api_call_unregister-IsOver_example :
    let t = (api_call_unregister true 0x1021 busy_server).0 in
    (find_key 0x1021 t.handlers ≡ none)
    × All (IsOver 0x1021) t.calls
    × All (IsOver 0x1021) t.waiting
unfolding api_call_unregister
api_call_unregister-IsOver_example =
    api_call_unregister-IsOver true 0x1021 busy_server (refl, tt) refl

on_disconnect-Forgets_example :
    (find_session 3 (on_disconnect 3 busy_server).sessions ≡ none)
    × Forgets 3 (on_disconnect 3 busy_server).calls
    × Forgets 3 (on_disconnect 3 busy_server).waiting
on_disconnect-Forgets_example = on_disconnect-Forgets 3 busy_server refl

length-response_text_example :
    length (response_text 0x1021 42 (codes "\"aGk=\"")) ≡ response_len (codes "\"aGk=\"")
length-response_text_example = length-response_text 0x1021 42 (codes "\"aGk=\"") (omega arith)

serve-going_on_example :
    ((serve 2000 served_server).calls ≡ a_call 3 41 4 ∷ [])
    × ((serve 2000 served_server).waiting ≡ [])
serve-going_on_example = serve-going_on 2000 served_server refl

forward_one-posts_example :
    let p = a_pass [] (a_server [] []) in
    let q = forward_one 30 (a_call 3 42 5) p in
    (q.before ≡ p.before)
    × (q.behind ≡ [])
    × (q.server.forwarded ≡ (7, message (a_call 3 42 5) (posted (a_call 3 42 5))) ∷ [])
    × (q.server.waiting
        ≡ confirmed (record (a_call 3 42 5) { req = left_argument (a_call 3 42 5) }) ∷ [])
    × (q.server.outbox ≡ delivered_frame 3 (a_call 3 42 5))
forward_one-posts_example =
    forward_one-posts 30 7 3 (a_call 3 42 5) (a_pass [] (a_server [] [])) refl refl refl refl refl
      refl refl

forward_one-busy_example :
    let p = a_pass [] full_server in
    let q = forward_one 30 (a_call 3 42 5) p in
    (q.before ≡ p.before)
    × (q.behind ≡ [])
    × (q.server.forwarded ≡ [])
    × (q.server.waiting ≡ break_call (a_call 3 42 5) ∷ [])
    × (q.server.outbox ≡ (3, answer_frame (a_call 3 42 5) (status_text status_busy)) ∷ [])
forward_one-busy_example =
    forward_one-busy 30 7 3 (a_call 3 42 5) (a_pass [] full_server) refl refl refl refl refl refl
      refl

uart_fid_nonzero : ◌≢◌ {A = ℕ} 0x1021 0
uart_fid_nonzero e = omega (arith, e)

send_json_fid_group-public_frames_example :
    let r = send_json_fid_group 0x1021 (codes "1") busy_server in
    (r.0.outbox
      ≡ public_frames 0x1021 (codes "1") busy_server.waiting
        ++ public_frames 0x1021 (codes "1") busy_server.calls)
    × (r.1 ≡ (any_match 0x1021 busy_server.waiting || any_match 0x1021 busy_server.calls))
send_json_fid_group-public_frames_example =
    send_json_fid_group-public_frames 0x1021 (codes "1") busy_server uart_fid_nonzero refl refl

is_due : IsDue 30 7 4 (a_call 4 42 5) one_call_server
is_due = record {
  session = refl;
  kept = refl;
  due = refl;
  routed = refl;
  mallocs = refl;
  sends = refl;
  posts = refl;
}

respond-forward_example :
    let t = respond 60 (a_message 42 (codes "1")) (forward 30 one_call_server) in
    (t.forwarded ≡ (7, message (a_call 4 42 5) (posted (a_call 4 42 5))) ∷ [])
    × (t.outbox
        ≡ delivered_frame 4 (a_call 4 42 5) ++ (4, answer_frame (a_call 4 42 5) (codes "1")) ∷ [])
    × (t.waiting ≡ a_call 3 41 4 ∷ [])
    × (t.calls ≡ rearmed 60 (waiting_call (a_call 4 42 5)))
respond-forward_example =
    respond-forward 30 60 7 4 (a_call 4 42 5) one_call_server (a_message 42 (codes "1")) b'1' []
      refl is_due forty_two_nonzero refl refl (refl, tt)

forward_one-no_memory_example :
    let q = forward_one 30 (a_call 3 42 5) (a_pass [] starved_server) in
    (q.server.forwarded ≡ [])
    × (q.server.waiting ≡ confirmed (a_call 3 42 5) ∷ [])
    × (q.server.outbox ≡ (3, answer_frame (a_call 3 42 5) (status_text status_delivered)) ∷ [])
forward_one-no_memory_example =
    forward_one-no_memory 30 7 3 (a_call 3 42 5) (a_pass [] starved_server) refl refl refl refl refl
      refl
