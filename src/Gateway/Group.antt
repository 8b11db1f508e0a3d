-- ===== src/Gateway/Group.antt =====
-- Sending to all subscribers of an FID (ws_server/src/ws_server.c).
use wireless_gateway.Prelude.{
  ℕ, ◌≡◌, ◌≢◌, refl, sym, ap, ◌∙◌, Bool, true, false, ◌||◌, List, [], ◌∷◌, ◌++◌, none, some, Text,
  arith, if◌then◌else◌,
}
use mathlib.Core.List.{append-nil, append_assoc}
use wireless_gateway.Gateway.State.{Call, Frame, text, Server, spend, call_fid_match}
use wireless_gateway.Gateway.Response.{response_text}
use wireless_gateway.Gateway.Send.{send_frame, send_each, any_match, send_json_fid_group}

-- The frame of a subscriber: id 0 marks it as public.
abbrev pub public_frame : ℕ → Text → Call → List (ℕ × Frame)
public_frame fid json c =
    if call_fid_match fid c
    then elim c.session [ none ↦ [] | some fd ↦ (fd, text (response_text fid 0 json)) ∷ [] ]
    else []

abbrev pub public_frames : ℕ → Text → List Call → List (ℕ × Frame)
public_frames fid json [] = []
public_frames fid json (c ∷ cs) = public_frame fid json c ++ public_frames fid json cs

record Published (frames : List (ℕ × Frame)) (r q : Server × Bool) : Type 0 where
  outbox : q.0.outbox ≡ r.0.outbox ++ frames
  sends : q.0.sends ≡ []
  sent : q.1 ≡ true

abbrev target : ℕ → Text → Call → Server × Bool → Server × Bool
target fid json c r =
    if call_fid_match fid c
    then elim c.session [ none ↦ r | some fd ↦ send_frame fd (text (response_text fid 0 json)) r.0 ]
    else r

target-Published :
    (fid : ℕ) (json : Text) (c : Call) (r : Server × Bool)
    → r.0.sends ≡ []
    → r.1 ≡ true
    → Published (public_frame fid json c) r (target fid json c r)
unfolding send_frame
target-Published fid json c r h t = ground (arith, append-nil r.0.outbox)

send_each-Published :
    (fid : ℕ) (json : Text) (cs : List Call) (r : Server × Bool)
    → r.0.sends ≡ []
    → r.1 ≡ true
    → Published (public_frames fid json cs) r (send_each fid json cs r)
unfolding send_each
send_each-Published fid json [] r h t = record {
  outbox = sym (append-nil r.0.outbox);
  sends = h;
  sent = t;
}
send_each-Published fid json (c ∷ cs) r h t =
    let first = target-Published fid json c r h t in
    let others = send_each-Published fid json cs (target fid json c r) first.sends first.sent in
    record {
      outbox =
          others.outbox
          ∙ ap (λ o. o ++ public_frames fid json cs) first.outbox
          ∙ append_assoc r.0.outbox (public_frame fid json c) (public_frames fid json cs);
      sends = others.sends;
      sent = others.sent;
    }

no_match-public_frames :
    (fid : ℕ) (json : Text) (cs : List Call)
    → any_match fid cs ≡ false
    → public_frames fid json cs ≡ []
no_match-public_frames fid json [] h = refl
no_match-public_frames fid json (c ∷ cs) h = ground (arith, no_match-public_frames fid json cs)

-- While memory and the transport hold out, a send to the group of an FID other than 0 goes once to every
-- call of the FID that is not over, those that wait for a response first and each list in its order, in
-- an envelope with id 0, where README.md documents a tick counter; it succeeds exactly if there is such
-- a call.
pub send_json_fid_group-public_frames :
    (fid : ℕ) (json : Text) (s : Server)
    → fid ≢ 0
    → s.mallocs ≡ []
    → s.sends ≡ []
    → let r = send_json_fid_group fid json s in
      (r.0.outbox
        ≡ s.outbox ++ (public_frames fid json s.waiting ++ public_frames fid json s.calls))
      × (r.1 ≡ (any_match fid s.waiting || any_match fid s.calls))
unfolding send_json_fid_group
send_json_fid_group-public_frames fid json s used m n = ground (
  arith,
  all.outbox,
  all.sent,
  append-nil s.outbox,
  no_match-public_frames fid json s.waiting,
  no_match-public_frames fid json s.calls,
)
  where
    first :
        Published
          (public_frames fid json s.waiting)
          (spend s, true)
          (send_each fid json s.waiting (spend s, true))
    first = send_each-Published fid json s.waiting (spend s, true) n refl

    later :
        Published
          (public_frames fid json s.calls)
          (send_each fid json s.waiting (spend s, true))
          (send_each fid json s.calls (send_each fid json s.waiting (spend s, true)))
    later =
        send_each-Published fid json s.calls (send_each fid json s.waiting (spend s, true))
          first.sends first.sent

    all :
        Published
          (public_frames fid json s.waiting ++ public_frames fid json s.calls)
          (spend s, true)
          (send_each fid json s.calls (send_each fid json s.waiting (spend s, true)))
    all = record {
      outbox =
          later.outbox
          ∙ ap (λ o. o ++ public_frames fid json s.calls) first.outbox
          ∙ append_assoc s.outbox (public_frames fid json s.waiting)
              (public_frames fid json s.calls);
      sends = later.sends;
      sent = later.sent;
    }
