-- ===== src/Gateway/Invariant/Run.antt =====
-- The server under every interleaving of its callers: the transport's callbacks, the registration
-- calls, and the worker, whose parts each hold the mutex (ws_server/src/ws_server.c).
use wireless_gateway.Prelude.{
  ℕ, zero, suc, Bool, true, false, List, [], ◌∷◌, Option, none, some, Text, map, arith,
}
use wireless_gateway.Json.{CJson}
use wireless_gateway.Gateway.State.{Call, Session, Msg, Server, break_by_fd}
use wireless_gateway.Gateway.Registry.{
  api_call_register, api_call_unregister, register_fid_queue, break_by_fid,
}
use wireless_gateway.Gateway.Intake.{
  FrameType, on_connect, on_disconnect, on_transfer_complete, on_frame,
}
use wireless_gateway.Gateway.Send.{
  send_json_fid_group, complete_call, complete_at, api_call_complete,
}
use wireless_gateway.Gateway.Quiet.{send_json_fid_group-Quiet}
use wireless_gateway.Gateway.Serve.{serve}
use wireless_gateway.Gateway.Forward.{forward}
use wireless_gateway.Gateway.Respond.{respond_all}
use wireless_gateway.Gateway.Invariant.{AllSound, Inv, Follows-Sound}
use wireless_gateway.Gateway.Invariant.Sessions.{on_connect-Inv, on_disconnect-Inv}
use wireless_gateway.Gateway.Invariant.Intake.{on_frame-Inv, Quiet-Inv}
use wireless_gateway.Gateway.Invariant.Serve.{serve-Inv, complete_call-Follows}
use wireless_gateway.Gateway.Invariant.Forward.{forward-Inv}
use wireless_gateway.Gateway.Invariant.Respond.{respond_all-Inv}

-- The state at boot, with what the system will answer.
abbrev pub boot : List Bool → List Bool → List Bool → Server
boot mallocs sends posts = record {
  handlers = [];
  fid_queues = [];
  calls = [];
  waiting = [];
  sessions = [];
  outbox = [];
  forwarded = [];
  invoked = [];
  mallocs = mallocs;
  sends = sends;
  posts = posts;
}

pub data Event : Type 0 where
  connects : ℕ → ℕ → Event
  disconnects : ℕ → Event
  frame : ℕ → FrameType → Text → ℕ → Event
  transfers : Bool → Bool → ℕ → Event
  sends_group : ℕ → Text → Event
  completes : Bool → ℕ → Event
  registers : Bool → Option ℕ → ℕ → Event
  unregisters : Bool → ℕ → Event
  routes : Bool → ℕ → ℕ → Event
  serves : ℕ → Event
  forwards : ℕ → Event
  responds : ℕ → List Msg → Event

break_by_fid-AllSound :
    (fid : ℕ) (ss : List Session) (cs : List Call)
    → AllSound ss cs
    → AllSound ss (map (break_by_fid fid) cs)
break_by_fid-AllSound fid ss [] h = tt
break_by_fid-AllSound fid ss (c ∷ cs) h = (
  Follows-Sound {ss = ss} c (break_by_fid fid c) (ground arith) h.0,
  break_by_fid-AllSound fid ss cs h.1,
)

break_by_fd-AllSound :
    (fd : ℕ) (ss : List Session) (cs : List Call)
    → AllSound ss cs
    → AllSound ss (map (break_by_fd fd) cs)
break_by_fd-AllSound fd ss [] h = tt
break_by_fd-AllSound fd ss (c ∷ cs) h = (
  Follows-Sound {ss = ss} c (break_by_fd fd c) (ground arith) h.0,
  break_by_fd-AllSound fd ss cs h.1,
)

complete_at-AllSound :
    (i : ℕ) (ss : List Session) (cs : List Call) → AllSound ss cs → AllSound ss (complete_at i cs)
complete_at-AllSound i ss [] h = tt
complete_at-AllSound zero ss (c ∷ cs) h =
    (Follows-Sound {ss = ss} c (complete_call c) (complete_call-Follows c) h.0, h.1)
complete_at-AllSound (suc i) ss (c ∷ cs) h = (h.0, complete_at-AllSound i ss cs h.1)

complete-Inv : (active : Bool) (i : ℕ) (s : Server) → Inv s → Inv (api_call_complete active i s)
unfolding api_call_complete
complete-Inv true i s v = record {
  calls = complete_at-AllSound i s.sessions s.calls v.calls;
  waiting = v.waiting;
}
complete-Inv false i s v = record {
  calls = v.calls;
  waiting = complete_at-AllSound i s.sessions s.waiting v.waiting;
}

transfer-Inv :
    (taken err : Bool) (fd : ℕ) (s : Server) → Inv s → Inv (on_transfer_complete taken err fd s)
unfolding on_transfer_complete
transfer-Inv taken err fd s v = ground (
  arith,
  break_by_fd-AllSound fd s.sessions s.calls v.calls,
  break_by_fd-AllSound fd s.sessions s.waiting v.waiting,
)

register-Inv :
    (taken : Bool) (handler : Option ℕ) (fid : ℕ) (s : Server)
    → Inv s
    → Inv (api_call_register taken handler fid s).0
unfolding api_call_register
register-Inv taken none fid s v = v
register-Inv taken (some h) fid s v = ground arith

unregister-Inv :
    (taken : Bool) (fid : ℕ) (s : Server) → Inv s → Inv (api_call_unregister taken fid s).0
unfolding api_call_unregister
unregister-Inv taken fid s v = ground (
  arith,
  break_by_fid-AllSound fid s.sessions s.calls v.calls,
  break_by_fid-AllSound fid s.sessions s.waiting v.waiting,
)

route-Inv :
    (taken : Bool) (fid queue : ℕ) (s : Server)
    → Inv s
    → Inv (register_fid_queue taken fid queue s).0
unfolding register_fid_queue
route-Inv taken fid queue s v = ground arith

module _ (cjson : CJson) (ms_to_ticks : ℕ → ℕ) where
  pub step : Event → Server → Server
  step (connects fd now) s = on_connect fd now s
  step (disconnects fd) s = on_disconnect fd s
  step (frame fd type payload now) s = on_frame cjson ms_to_ticks fd type payload now s
  step (transfers taken err fd) s = on_transfer_complete taken err fd s
  step (sends_group fid json) s = (send_json_fid_group fid json s).0
  step (completes active i) s = api_call_complete active i s
  step (registers taken handler fid) s = (api_call_register taken handler fid s).0
  step (unregisters taken fid) s = (api_call_unregister taken fid s).0
  step (routes taken fid queue) s = (register_fid_queue taken fid queue s).0
  step (serves now) s = serve now s
  step (forwards now) s = forward now s
  step (responds now msgs) s = respond_all now msgs s

  pub run : List Event → Server → Server
  run [] s = s
  run (e ∷ es) s = run es (step e s)

  step-Inv : (e : Event) (s : Server) → Inv s → Inv (step e s)
  unfolding step
  step-Inv (connects fd now) s v = on_connect-Inv fd now s v
  step-Inv (disconnects fd) s v = on_disconnect-Inv fd s v
  step-Inv (frame fd type payload now) s v = on_frame-Inv cjson ms_to_ticks fd type payload now s v
  step-Inv (transfers taken err fd) s v = transfer-Inv taken err fd s v
  step-Inv (sends_group fid json) s v = Quiet-Inv s _ (send_json_fid_group-Quiet fid json s) v
  step-Inv (completes active i) s v = complete-Inv active i s v
  step-Inv (registers taken handler fid) s v = register-Inv taken handler fid s v
  step-Inv (unregisters taken fid) s v = unregister-Inv taken fid s v
  step-Inv (routes taken fid queue) s v = route-Inv taken fid queue s v
  step-Inv (serves now) s v = serve-Inv now s v
  step-Inv (forwards now) s v = forward-Inv now s v
  step-Inv (responds now msgs) s v = respond_all-Inv now msgs s v

  run-Inv : (es : List Event) (s : Server) → Inv s → Inv (run es s)
  unfolding run
  run-Inv [] s v = v
  run-Inv (e ∷ es) s v = run-Inv es (step e s) (step-Inv e s v)

  -- After any interleaving of connections, frames, transfers, group sends, completions, registrations and
  -- parts of the worker's pass, whatever malloc, the transport and the queues answer, every call in both
  -- lists either is over or has a session that has not been freed; its id fits 16 bits, and its FID is
  -- not the reserved 0.
  pub run-boot-Inv :
      (es : List Event) (mallocs sends posts : List Bool) → Inv (run es (boot mallocs sends posts))
  run-boot-Inv es mallocs sends posts =
      run-Inv es (boot mallocs sends posts) (record { calls = tt; waiting = tt })
