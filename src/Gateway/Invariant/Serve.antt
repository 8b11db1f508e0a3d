-- ===== src/Gateway/Invariant/Serve.antt =====
-- Pinging and collecting keep the invariant (ws_server/src/ws_server.c).
use wireless_gateway.Prelude.{
  ℕ, List, [], ◌∷◌, Option, none, some, arith, inl, inr, Option-cases, Bool-cases,
}
use wireless_gateway.Gateway.State.{Session, Call, Server, answer, find_session}
use wireless_gateway.Gateway.Send.{send_frame, complete_call}
use wireless_gateway.Gateway.Serve.{ping_session, is_idle, serve_call, serve_list, serve, keep_some}
use wireless_gateway.Gateway.Invariant.{
  Sound, AllSound, Inv, Grows, Sound-Grows, AllSound-Grows, Follows, Follows-Sound,
}
use wireless_gateway.Gateway.Invariant.Sessions.{put_session-Grows}

pub complete_call-Follows : (c : Call) → Follows c (complete_call c)
unfolding complete_call
complete_call-Follows c = ground arith

Grows-refl : (ss : List Session) → Grows ss ss
Grows-refl ss fd h = h

-- What serving a list of calls gives.
record Served (ss : List Session) (r : List Call × Server) : Type 0 where
  sound : AllSound r.1.sessions r.0
  grows : Grows ss r.1.sessions

record ServedCall (ss : List Session) (r : Option Call × Server) : Type 0 where
  sound : AllSound r.1.sessions (keep_some r.0 [])
  grows : Grows ss r.1.sessions

kept-ServedCall : (c : Call) (s : Server) → Sound s.sessions c → ServedCall s.sessions (some c, s)
kept-ServedCall c s v = record { sound = (v, tt); grows = Grows-refl s.sessions }

ping_session-ServedCall :
    (now : ℕ) (t : Session) (c : Call) (s : Server)
    → Sound s.sessions c
    → ServedCall s.sessions (ping_session now t c s)
unfolding ping_session send_frame
ping_session-ServedCall now t c s v = elim (Bool-cases (answer s.sends)) [
  | inl e ↦ rw e (record {
    sound = (Sound-Grows {ss = s.sessions} c (put_session-Grows _ s.sessions) v, tt);
    grows = put_session-Grows _ s.sessions;
  })
  | inr e ↦ rw e (record {
    sound = (Follows-Sound {ss = s.sessions} c _ (complete_call-Follows c) v, tt);
    grows = Grows-refl s.sessions;
  })
]

serve_call-ServedCall :
    (now : ℕ) (c : Call) (s : Server)
    → Sound s.sessions c
    → ServedCall s.sessions (serve_call now c s)
serve_call-ServedCall now c s v = elim (Option-cases c.session) [
  | inl e ↦
      unfold serve_call in rw (e, serve_call) (record { sound = tt; grows = Grows-refl s.sessions })
  | inr (fd, e) ↦ elim (Option-cases (find_session fd s.sessions)) [
    | inl m ↦ unfold serve_call in rw (e, serve_call) (rw (m, serve_call) (kept-ServedCall c s v))
    | inr (t, m) ↦ elim (Bool-cases (is_idle now t)) [
      | inl due ↦
          unfold serve_call in
          rw (e, serve_call) (rw (m, serve_call) (rw due (ping_session-ServedCall now t c s v)))
      | inr early ↦
          unfold serve_call in
          rw (e, serve_call) (rw (m, serve_call) (rw early (kept-ServedCall c s v)))
    ]
  ]
]

cons-kept :
    (ss : List Session) (o : Option Call) (cs : List Call)
    → AllSound ss (keep_some o [])
    → AllSound ss cs
    → AllSound ss (keep_some o cs)
cons-kept ss none cs h k = k
cons-kept ss (some c) cs h k = (h.0, k)

Served-cons :
    (ss : List Session) (o : Option Call × Server) (r : List Call × Server)
    → ServedCall ss o
    → Served o.1.sessions r
    → Served ss (keep_some o.0 r.0, r.1)
Served-cons ss o r p q = record {
  sound =
      cons-kept r.1.sessions o.0 r.0
        (AllSound-Grows o.1.sessions r.1.sessions (keep_some o.0 []) q.grows p.sound) q.sound;
  grows = λ fd h. q.grows fd (p.grows fd h);
}

serve_list-Served :
    (now : ℕ) (cs : List Call) (s : Server)
    → AllSound s.sessions cs
    → Served s.sessions (serve_list now cs s)
unfolding serve_list
serve_list-Served now [] s h = record { sound = tt; grows = Grows-refl s.sessions }
serve_list-Served now (c ∷ cs) s h = Served-cons s.sessions (serve_call now c s) _ first (
    serve_list-Served now cs (serve_call now c s).1
      (AllSound-Grows s.sessions _ cs first.grows h.1))
  where
    first : ServedCall s.sessions (serve_call now c s)
    first = serve_call-ServedCall now c s h.0

pub serve-Inv : (now : ℕ) (s : Server) → Inv s → Inv (serve now s)
unfolding serve
serve-Inv now s v = record {
  calls = AllSound-Grows first.1.sessions second.1.sessions first.0 q.grows p.sound;
  waiting = q.sound;
}
  where
    first : List Call × Server
    first = serve_list now s.calls s

    p : Served s.sessions first
    p = serve_list-Served now s.calls s v.calls

    second : List Call × Server
    second = serve_list now s.waiting first.1

    q : Served first.1.sessions second
    q =
        serve_list-Served now s.waiting first.1
          (AllSound-Grows s.sessions first.1.sessions s.waiting p.grows v.waiting)
