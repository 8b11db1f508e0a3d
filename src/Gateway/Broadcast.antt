-- ===== src/Gateway/Broadcast.antt =====
-- Responses with id 0, for all calls that wait on an FID (ws_server/src/ws_server.c).
use wireless_gateway.Prelude.{
  ℕ, ◌≡◌, refl, ◌∙◌, sym, ap, subst, true, List, [], ◌∷◌, ◌++◌, none, some, Text, arith,
  if◌then◌else◌, inl, inr, Option-cases, Bool-cases,
}
use mathlib.Core.List.{append_assoc, append-nil}
use wireless_gateway.Gateway.State.{Call, Frame, Msg, Server, call_fid_match}
use wireless_gateway.Gateway.Respond.{deliver, broadcast_list, respond}
use wireless_gateway.Gateway.Routing.{answer_frame, rearmed, tell_answers}

-- The frames that the subscribers of an FID are owed, in the order in which they wait.
abbrev pub frame_for : Text → Call → List (ℕ × Frame)
frame_for json c = elim c.session [ none ↦ [] | some fd ↦ (fd, answer_frame c json) ∷ [] ]

abbrev pub frames_for : ℕ → Text → List Call → List (ℕ × Frame)
frames_for fid json [] = []
frames_for fid json (c ∷ cs) =
    if call_fid_match fid c
    then frame_for json c ++ frames_for fid json cs
    else frames_for fid json cs

abbrev pub others_than : ℕ → List Call → List Call
others_than fid [] = []
others_than fid (c ∷ cs) =
    if call_fid_match fid c then others_than fid cs else c ∷ others_than fid cs

abbrev pub rearmed_all : ℕ → ℕ → List Call → List Call
rearmed_all now fid [] = []
rearmed_all now fid (c ∷ cs) =
    if call_fid_match fid c then rearmed now c ++ rearmed_all now fid cs else rearmed_all now fid cs

record Spread (now fid : ℕ) (json : Text) (cs : List Call) (s : Server) (r : List Call × Server)
    : Type 0 where
  outbox : r.1.outbox ≡ s.outbox ++ frames_for fid json cs
  kept : r.0 ≡ others_than fid cs
  calls : r.1.calls ≡ s.calls ++ rearmed_all now fid cs

match_has_session :
    (fid : ℕ) (c : Call) → call_fid_match fid c ≡ true → (fd : ℕ) × (c.session ≡ some fd)
match_has_session fid c h = elim (Option-cases c.session) [
  | inl e ↦ absurd (ground arith)
  | inr (fd, e) ↦ (fd, e)
]

frames_for-match :
    (fid : ℕ) (json : Text) (c : Call) (cs : List Call) (fd : ℕ)
    → call_fid_match fid c ≡ true
    → c.session ≡ some fd
    → frames_for fid json (c ∷ cs) ≡ (fd, answer_frame c json) ∷ frames_for fid json cs
frames_for-match fid json c cs fd e session = ground arith

others_than-match :
    (fid : ℕ) (c : Call) (cs : List Call)
    → call_fid_match fid c ≡ true
    → others_than fid (c ∷ cs) ≡ others_than fid cs
others_than-match fid c cs e = ground arith

rearmed_all-match :
    (now fid : ℕ) (c : Call) (cs : List Call)
    → call_fid_match fid c ≡ true
    → rearmed_all now fid (c ∷ cs) ≡ rearmed now c ++ rearmed_all now fid cs
rearmed_all-match now fid c cs e = ground arith

broadcast_list-match :
    (now : ℕ) (msg : Msg) (c : Call) (cs : List Call) (s : Server)
    → call_fid_match msg.fid c ≡ true
    → broadcast_list now msg (c ∷ cs) s ≡ broadcast_list now msg cs (deliver now msg c s)
unfolding broadcast_list
broadcast_list-match now msg c cs s e = rw (e, broadcast_list) refl

broadcast_list-Spread :
    (now : ℕ) (msg : Msg) (b : ℕ) (bs : Text) (cs : List Call) (s : Server)
    → msg.payload ≡ some (b ∷ bs)
    → s.mallocs ≡ []
    → s.sends ≡ []
    → Spread now msg.fid (b ∷ bs) cs s (broadcast_list now msg cs s)
unfolding broadcast_list
broadcast_list-Spread now msg b bs [] s payload m n = record {
  outbox = sym (append-nil _);
  kept = refl;
  calls = sym (append-nil _);
}
broadcast_list-Spread now msg b bs (c ∷ cs) s payload m n =
    elim (Bool-cases (call_fid_match msg.fid c)) [
      | inl e ↦
          let (fd, session) = match_has_session msg.fid c e in
          let first = tell_answers now msg c s fd b bs payload session m n in
          let later =
            broadcast_list-Spread now msg b bs cs (deliver now msg c s) payload first.mallocs
              first.sends in
          subst (Spread now msg.fid (b ∷ bs) (c ∷ cs) s)
            (sym (broadcast_list-match now msg c cs s e))
            (record {
              outbox =
                  later.outbox
                  ∙ ap (λ o. o ++ frames_for msg.fid (b ∷ bs) cs) first.outbox
                  ∙ append_assoc s.outbox _ _
                  ∙ ap (λ o. s.outbox ++ o)
                      (sym (frames_for-match msg.fid (b ∷ bs) c cs fd e session));
              kept = later.kept ∙ sym (others_than-match msg.fid c cs e);
              calls =
                  later.calls
                  ∙ ap (λ o. o ++ rearmed_all now msg.fid cs) first.calls
                  ∙ append_assoc s.calls _ _
                  ∙ ap (λ o. s.calls ++ o) (sym (rearmed_all-match now msg.fid c cs e));
            })
      | inr e ↦
          let later = broadcast_list-Spread now msg b bs cs s payload m n in
          rw (e, broadcast_list)
            (record {
              outbox = rw e later.outbox;
              kept = rw e (ap (◌∷◌ c) later.kept);
              calls = rw e later.calls;
            })
    ]

respond-zero :
    (now : ℕ) (msg : Msg) (s : Server)
    → msg.id ≡ 0
    → respond now msg s ≡ record ((broadcast_list now msg s.waiting s).1) {
      waiting = (broadcast_list now msg s.waiting s).0;
    }
unfolding respond
respond-zero now msg s h = rw h refl

-- While memory and the transport hold out, a response with data whose id is 0 goes to every waiting call
-- of its FID that is not over, in the order in which they wait, each in an envelope with the call's own
-- id. Those calls leave the waiting list, the others stay in their order, and the long-term ones go back
-- to the calls, to be polled after their interval.
pub respond-broadcast :
    (now : ℕ) (msg : Msg) (s : Server) (b : ℕ) (bs : Text)
    → msg.id ≡ 0
    → msg.payload ≡ some (b ∷ bs)
    → s.mallocs ≡ []
    → s.sends ≡ []
    → let t = respond now msg s in
      (t.outbox ≡ s.outbox ++ frames_for msg.fid (b ∷ bs) s.waiting)
      × (t.waiting ≡ others_than msg.fid s.waiting)
      × (t.calls ≡ s.calls ++ rearmed_all now msg.fid s.waiting)
respond-broadcast now msg s b bs zero_id payload m n =
    let spread = broadcast_list-Spread now msg b bs s.waiting s payload m n in
    rw (respond-zero now msg s zero_id) (spread.outbox, spread.kept, spread.calls)
