-- ===== src/Gateway/Routing.antt =====
-- Which waiting call a response of a peripheral reaches (ws_server/src/ws_server.c).
use wireless_gateway.Prelude.{
  ℕ, ◌≡◌, ◌≢◌, Bool, true, false, List, [], ◌∷◌, ◌++◌, some, Text, arith, ◌==◌, if◌then◌else◌,
}
use mathlib.Core.List.{append-nil}
use wireless_gateway.Gateway.State.{
  Call, Frame, text, Msg, Server, flag_long_term, has_flag, call_id_match, add32,
}
use wireless_gateway.Gateway.Response.{response_text}
use wireless_gateway.Gateway.Send.{send_json}
use wireless_gateway.Gateway.Respond.{deliver, invoke, rearm, take_first, answer_first, respond}

-- The first call of a list that a test finds: those before it fail the test.
pub data Finds (p : Call → Bool) : List Call → Call → List Call → Type 0 where
  here : (c : Call) (cs : List Call) → p c ≡ true → Finds p (c ∷ cs) c cs
  later :
      (d : Call) {c : Call} {cs others : List Call}
      → p d ≡ false
      → Finds p cs c others
      → Finds p (d ∷ cs) c (d ∷ others)

pub take_first-Finds :
    (p : Call → Bool) {cs : List Call} {c : Call} {others : List Call}
    → Finds p cs c others
    → take_first p cs ≡ some (c, others)
unfolding take_first
take_first-Finds p (here c cs e) = rw e
take_first-Finds p (later d e f) = rw (e, take_first-Finds p f)

-- The frame that answers a call, and the call as it is polled again.
abbrev pub answer_frame : Call → Text → Frame
answer_frame c json = text (response_text c.fid c.id json)

abbrev pub rearmed : ℕ → Call → List Call
rearmed now c =
    if has_flag c.flags flag_long_term
    then record c { next_poll = add32 now c.poll_interval } ∷ []
    else []

-- Sending where memory and the transport hold out.
pub send_json-answers :
    (c : Call) (json : Text) (s : Server) (fd : ℕ)
    → c.session ≡ some fd
    → s.mallocs ≡ []
    → s.sends ≡ []
    → send_json c json s ≡ (record s { outbox = s.outbox ++ (fd, answer_frame c json) ∷ [] }, true)
unfolding send_json
send_json-answers c json s fd session mallocs sends = ground arith

-- What a delivery with data does.
pub record Answered (now : ℕ) (c : Call) (fd : ℕ) (json : Text) (s t : Server) : Type 0 where
  pub outbox : t.outbox ≡ s.outbox ++ (fd, answer_frame c json) ∷ []
  pub waiting : t.waiting ≡ s.waiting
  pub calls : t.calls ≡ s.calls ++ rearmed now c
  pub forwarded : t.forwarded ≡ s.forwarded
  pub mallocs : t.mallocs ≡ []
  pub sends : t.sends ≡ []

rearm-Answered :
    (now : ℕ) (c : Call) (fd : ℕ) (json : Text) (s : Server)
    → s.mallocs ≡ []
    → s.sends ≡ []
    → Answered now c fd json s
        (rearm now c (record s { outbox = s.outbox ++ (fd, answer_frame c json) ∷ [] }))
rearm-Answered now c fd json s m n = ground (arith, append-nil s.calls)

invoke-mallocs : (c : Call) (msg : Msg) (s : Server) → (invoke c msg s).mallocs ≡ s.mallocs
invoke-mallocs c msg s = ground arith

pub tell_answers :
    (now : ℕ) (msg : Msg) (c : Call) (s : Server) (fd b : ℕ) (bs : Text)
    → msg.payload ≡ some (b ∷ bs)
    → c.session ≡ some fd
    → s.mallocs ≡ []
    → s.sends ≡ []
    → Answered now c fd (b ∷ bs) s (deliver now msg c s)
unfolding deliver
tell_answers now msg c s fd b bs payload session mallocs sends =
    ground
      (arith, payload, append-nil s.calls, send_json-answers c (b ∷ bs) (invoke c msg s) fd session)

respond-nonzero :
    (now : ℕ) (msg : Msg) (s : Server)
    → msg.id ≢ 0
    → respond now msg s ≡ answer_first now msg (take_first (call_id_match msg.id) s.waiting) s
unfolding respond
respond-nonzero now msg s h = rw is_zero
  where
    is_zero : (msg.id == 0) ≡ false
    is_zero = ground arith

pub respond-forwarded :
    (now : ℕ) (msg : Msg) (s : Server) (c : Call) (others : List Call) (fd b : ℕ) (bs : Text)
    → msg.id ≢ 0
    → msg.payload ≡ some (b ∷ bs)
    → Finds (call_id_match msg.id) s.waiting c others
    → c.session ≡ some fd
    → s.mallocs ≡ []
    → s.sends ≡ []
    → (respond now msg s).forwarded ≡ s.forwarded
respond-forwarded now msg s c others fd b bs nonzero payload found session mallocs sends =
    rw (respond-nonzero now msg s nonzero, take_first-Finds (call_id_match msg.id) found)
      (tell_answers now msg c (record s { waiting = others }) fd b bs payload session mallocs
        sends).forwarded

-- While memory and the transport hold out, a response with data whose id is not 0 goes to the first
-- waiting call with that id, and to its client alone, in an envelope with the call's own FID and id. The
-- call leaves the waiting list, the other waiting calls stay as they are, and only a long-term call goes
-- back to the calls, to be polled after its interval.
pub respond-Finds :
    (now : ℕ) (msg : Msg) (s : Server) (c : Call) (others : List Call) (fd b : ℕ) (bs : Text)
    → msg.id ≢ 0
    → msg.payload ≡ some (b ∷ bs)
    → Finds (call_id_match msg.id) s.waiting c others
    → c.session ≡ some fd
    → s.mallocs ≡ []
    → s.sends ≡ []
    → let t = respond now msg s in
      (t.outbox ≡ s.outbox ++ (fd, answer_frame c (b ∷ bs)) ∷ [])
      × (t.waiting ≡ others)
      × (t.calls ≡ s.calls ++ rearmed now c)
respond-Finds now msg s c others fd b bs nonzero payload found session mallocs sends =
    rw (respond-nonzero now msg s nonzero, take_first-Finds (call_id_match msg.id) found)
      (answered.outbox, answered.waiting, answered.calls)
  where
    answered :
        Answered now c fd
          (b ∷ bs)
          (record s { waiting = others })
          (deliver now msg c (record s { waiting = others }))
    answered =
        tell_answers now msg c (record s { waiting = others }) fd b bs payload session mallocs sends
