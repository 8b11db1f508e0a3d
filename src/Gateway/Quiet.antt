-- ===== src/Gateway/Quiet.antt =====
-- What sending and posting leave alone in ws_server/src/ws_server.c: the lists of calls, the sessions
-- and the tables.
use wireless_gateway.Prelude.{
  ℕ, ◌≡◌, refl, ◌∙◌, [], ◌∷◌, Option, none, some, Text, arith, inl, inr, Bool-cases, Option-cases,
  List, Bool, true, if◌then◌else◌,
}
use wireless_gateway.Gateway.State.{
  Call, Frame, Msg, Server, answer, rest, text, call_fid_match, spend, flag_long_term, has_flag,
}
use wireless_gateway.Gateway.Response.{response_text}
use wireless_gateway.Gateway.Send.{
  send_frame, send_json, send_status, send_each, send_json_fid_group,
}
use wireless_gateway.Gateway.Forward.{
  post, post_copy, forward_call, confirm, status_busy, status_delivered,
}
use wireless_gateway.Gateway.Respond.{invoke}

pub record Quiet (s t : Server) : Type 0 where
  pub sessions : t.sessions ≡ s.sessions
  pub calls : t.calls ≡ s.calls
  pub waiting : t.waiting ≡ s.waiting
  pub handlers : t.handlers ≡ s.handlers
  pub fid_queues : t.fid_queues ≡ s.fid_queues

pub Quiet-refl : (s : Server) → Quiet s s
Quiet-refl s = record {
  sessions = refl;
  calls = refl;
  waiting = refl;
  handlers = refl;
  fid_queues = refl;
}

pub Quiet-trans : {s t u : Server} → Quiet s t → Quiet t u → Quiet s u
Quiet-trans p q = record {
  sessions = q.sessions ∙ p.sessions;
  calls = q.calls ∙ p.calls;
  waiting = q.waiting ∙ p.waiting;
  handlers = q.handlers ∙ p.handlers;
  fid_queues = q.fid_queues ∙ p.fid_queues;
}

pub send_frame-Quiet : (fd : ℕ) (f : Frame) (s : Server) → Quiet s (send_frame fd f s).0
unfolding send_frame
send_frame-Quiet fd f s = ground arith

pub send_json-Quiet : (c : Call) (json : Text) (s : Server) → Quiet s (send_json c json s).0
unfolding send_json
send_json-Quiet c json s = ground arith

pub send_status-Quiet : (c : Call) (sta : ℕ) (s : Server) → Quiet s (send_status c sta s).0
unfolding send_status
send_status-Quiet c sta s = send_json-Quiet c _ s

post-Quiet :
    (queue : ℕ) (msg : Msg) (kept c : Call) (s : Server) → Quiet s (post queue msg kept c s).1
unfolding post
post-Quiet queue msg kept c s =
    ground (arith, send_status-Quiet c status_busy (record s { posts = rest s.posts }))

spend-Quiet : (s : Server) → Quiet s (spend s)
spend-Quiet s = ground arith

post_copy-Quiet :
    (queue : ℕ) (req : Option Text) (c : Call) (s : Server) → Quiet s (post_copy queue req c s).1
unfolding post_copy
post_copy-Quiet queue none c s = post-Quiet _ _ _ _ s
post_copy-Quiet queue (some []) c s = post-Quiet _ _ _ _ s
post_copy-Quiet queue (some (b ∷ bs)) c s = elim (Bool-cases (answer s.mallocs)) [
  | inl e ↦ rw e (Quiet-trans (spend-Quiet s) (post-Quiet _ _ _ _ (spend s)))
  | inr e ↦ rw e (spend-Quiet s)
]

pub forward_call-Quiet : (queue : ℕ) (c : Call) (s : Server) → Quiet s (forward_call queue c s).1
unfolding forward_call
forward_call-Quiet queue c s = elim (Bool-cases (answer s.mallocs)) [
  | inl e ↦ elim (Bool-cases (has_flag c.flags flag_long_term)) [
    | inl l ↦ rw (e, l) (Quiet-trans (spend-Quiet s) (post_copy-Quiet queue c.req c (spend s)))
    | inr l ↦ rw (e, l) (Quiet-trans (spend-Quiet s) (post-Quiet _ _ _ _ (spend s)))
  ]
  | inr e ↦ rw e (spend-Quiet s)
]

pub confirm-Quiet : (c : Call) (s : Server) → Quiet s (confirm c s).1
unfolding confirm
confirm-Quiet c s = ground (arith, send_status-Quiet c status_delivered s)

pub invoke-Quiet : (c : Call) (msg : Msg) (s : Server) → Quiet s (invoke c msg s)
invoke-Quiet c msg s = ground arith

send_each-Quiet :
    (fid : ℕ) (json : Text) (cs : List Call) (s : Server) (r : Server × Bool)
    → Quiet s r.0
    → Quiet s (send_each fid json cs r).0
unfolding send_each
send_each-Quiet fid json [] s r q = q
send_each-Quiet fid json (c ∷ cs) s r q = send_each-Quiet fid json cs s _ (target c)
  where
    target :
        (c : Call)
        → Quiet s
            (if call_fid_match fid c
              then elim c.session [
                | none ↦ r
                | some fd ↦ send_frame fd (text (response_text fid 0 json)) r.0
              ]
              else r).0
    target c = elim (Bool-cases (call_fid_match fid c)) [
      | inr e ↦ rw e q
      | inl e ↦ elim (Option-cases c.session) [
        | inl o ↦ rw (e, o) q
        | inr (fd, o) ↦
            rw (e, o) (Quiet-trans q (send_frame-Quiet fd (text (response_text fid 0 json)) r.0))
      ]
    ]

pub send_json_fid_group-Quiet :
    (fid : ℕ) (json : Text) (s : Server) → Quiet s (send_json_fid_group fid json s).0
unfolding send_json_fid_group
send_json_fid_group-Quiet fid json s = ground (arith, all_targets, spend-Quiet s, Quiet-refl s)
  where
    all_targets :
        Quiet s (send_each fid json s.calls (send_each fid json s.waiting (spend s, true))).0
    all_targets =
        send_each-Quiet fid json s.calls s _
          (send_each-Quiet fid json s.waiting s (spend s, true) (spend-Quiet s))
