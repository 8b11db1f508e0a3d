-- ===== src/Gateway/Invariant/Respond.antt =====
-- The responses of the peripherals keep the invariant (ws_server/src/ws_server.c).
use wireless_gateway.Prelude.{
  ℕ, ◌≡◌, refl, ◌∙◌, Bool, List, [], ◌∷◌, Option, none, some, All-append, ◌==◌, if◌then◌else◌, inl,
  inr, Bool-cases,
}
use wireless_gateway.Gateway.State.{
  Session, Call, Msg, Server, flag_long_term, has_flag, call_id_match, call_fid_match,
}
use wireless_gateway.Gateway.Send.{send_json}
use wireless_gateway.Gateway.Respond.{
  deliver, invoke, rearm, has_payload, payload_text, broadcast_list, put_back, take_first,
  answer_first, respond, respond_all, worker_step,
}
use wireless_gateway.Gateway.Quiet.{Quiet, Quiet-trans, send_json-Quiet, invoke-Quiet}
use wireless_gateway.Gateway.Invariant.{Sound, AllSound, Inv}
use wireless_gateway.Gateway.Invariant.Serve.{serve-Inv}
use wireless_gateway.Gateway.Invariant.Forward.{forward-Inv}

-- What `deliver` does before the call is armed again.
abbrev pub tell : Msg → Call → Server → Server
tell msg c s =
    if has_payload msg.payload
    then (send_json c (payload_text msg.payload) (invoke c msg s)).0
    else invoke c msg s

pub tell-Quiet : (msg : Msg) (c : Call) (s : Server) → Quiet s (tell msg c s)
tell-Quiet msg c s = elim (Bool-cases (has_payload msg.payload)) [
  | inl e ↦ rw e (Quiet-trans (invoke-Quiet c msg s) (send_json-Quiet c _ (invoke c msg s)))
  | inr e ↦ rw e (invoke-Quiet c msg s)
]

-- What a delivery leaves: the sessions and the waiting calls, and sound calls.
record Delivered (s t : Server) : Type 0 where
  sessions : t.sessions ≡ s.sessions
  waiting : t.waiting ≡ s.waiting
  calls : AllSound s.sessions t.calls

rearm-Delivered :
    (now : ℕ) (c : Call) (s t : Server)
    → Quiet s t
    → Sound s.sessions c
    → AllSound s.sessions s.calls
    → Delivered s (rearm now c t)
rearm-Delivered now c s t q k h = elim (Bool-cases (has_flag c.flags flag_long_term)) [
  | inl e ↦ rw e (record {
    sessions = q.sessions;
    waiting = q.waiting;
    calls =
        All-append (Sound s.sessions) t.calls _ (rw q.calls h)
          (record { session = k.session; id_range = k.id_range; fid_used = k.fid_used }, tt);
  })
  | inr e ↦ rw e (record { sessions = q.sessions; waiting = q.waiting; calls = rw q.calls h })
]

deliver-Delivered :
    (now : ℕ) (msg : Msg) (c : Call) (s : Server)
    → Sound s.sessions c
    → AllSound s.sessions s.calls
    → Delivered s (deliver now msg c s)
unfolding deliver
deliver-Delivered now msg c s k h = rearm-Delivered now c s (tell msg c s) (tell-Quiet msg c s) k h

record Told (ss : List Session) (r : List Call × Server) : Type 0 where
  same : r.1.sessions ≡ ss
  kept : AllSound ss r.0
  calls : AllSound ss r.1.calls

broadcast_list-Told :
    (now : ℕ) (msg : Msg) (ss : List Session) (cs : List Call) (s : Server)
    → s.sessions ≡ ss
    → AllSound ss cs
    → AllSound ss s.calls
    → Told ss (broadcast_list now msg cs s)
unfolding broadcast_list
broadcast_list-Told now msg ss [] s e k h = record { same = e; kept = tt; calls = h }
broadcast_list-Told now msg ss (c ∷ cs) s e k h = elim (Bool-cases (call_fid_match msg.fid c)) [
  | inl m ↦
      let d = deliver-Delivered now msg c s (rw e k.0) (rw e h) in
      rw (m, broadcast_list)
        (broadcast_list-Told now msg ss cs (deliver now msg c s) (d.sessions ∙ e) k.1
          (rw (← e) d.calls))
  | inr m ↦
      let later = broadcast_list-Told now msg ss cs s e k.1 h in
      rw (m, broadcast_list)
        (record { same = later.same; kept = (k.0, later.kept); calls = later.calls })
]

-- The call that was found, and those that were not.
abbrev First : List Session → Option (Call × List Call) → Type 0
First ss none = Unit
First ss (some (c, others)) = Sound ss c × AllSound ss others

put_back-First :
    (ss : List Session) (c : Call) (r : Option (Call × List Call))
    → Sound ss c
    → First ss r
    → First ss (put_back c r)
put_back-First ss c none k f = tt
put_back-First ss c (some (d, others)) k f = (f.0, (k, f.1))

take_first-First :
    (ss : List Session) (p : Call → Bool) (cs : List Call)
    → AllSound ss cs
    → First ss (take_first p cs)
unfolding take_first
take_first-First ss p [] h = tt
take_first-First ss p (c ∷ cs) h = elim (Bool-cases (p c)) [
  | inl e ↦ rw e h
  | inr e ↦ rw e (put_back-First ss c (take_first p cs) h.0 (take_first-First ss p cs h.1))
]

answer_first-Inv :
    (now : ℕ) (msg : Msg) (r : Option (Call × List Call)) (s : Server)
    → First s.sessions r
    → Inv s
    → Inv (answer_first now msg r s)
answer_first-Inv now msg none s f v = v
answer_first-Inv now msg (some (c, others)) s f v = record {
  calls = rw d.sessions d.calls;
  waiting = rw (d.sessions, d.waiting) f.1;
}
  where
    d :
        Delivered
          (record s { waiting = others })
          (deliver now msg c (record s { waiting = others }))
    d = deliver-Delivered now msg c (record s { waiting = others }) f.0 v.calls

respond-Inv : (now : ℕ) (msg : Msg) (s : Server) → Inv s → Inv (respond now msg s)
unfolding respond
respond-Inv now msg s v = elim (Bool-cases (msg.id == 0)) [
  | inl e ↦
      let told = broadcast_list-Told now msg s.sessions s.waiting s refl v.waiting v.calls in
      rw e (record { calls = rw told.same told.calls; waiting = rw told.same told.kept })
  | inr e ↦ rw e (
      answer_first-Inv now msg (take_first (call_id_match msg.id) s.waiting) s
        (take_first-First s.sessions _ s.waiting v.waiting) v)
]

pub respond_all-Inv :
    (now : ℕ) (msgs : List Msg) (s : Server) → Inv s → Inv (respond_all now msgs s)
unfolding respond_all
respond_all-Inv now [] s v = v
respond_all-Inv now (m ∷ ms) s v = respond_all-Inv now ms (respond now m s) (respond-Inv now m s v)

pub worker_step-Inv :
    (now : ℕ) (msgs : List Msg) (s : Server) → Inv s → Inv (worker_step now msgs s)
unfolding worker_step
worker_step-Inv now msgs s v = respond_all-Inv now msgs _ (forward-Inv now _ (serve-Inv now s v))
