-- ===== src/Gateway/Invariant/Intake.antt =====
-- The callbacks of the transport keep the invariant (ws_server/src/ws_server.c).
use wireless_gateway.Prelude.{
  ℕ, ◌≡◌, true, ◌||◌, [], ◌∷◌, Option, none, some, Text, codes, is_some, All-append, arith, ◌==◌,
  inl, inr, Option-cases, Bool-cases,
}
use wireless_gateway.Prelude.Int.{ℤ}
use wireless_gateway.Json.{CJson}
use wireless_gateway.FrameParser.{item_kind, fid_of}
use wireless_gateway.Gateway.State.{Call, Server, pong, close, answer, rest, find_key, find_session}
use wireless_gateway.Gateway.Quiet.{Quiet, send_status-Quiet, send_frame-Quiet}
use wireless_gateway.Gateway.Intake.{
  enqueue, accept, take_call, read_call, on_text, FrameType, text_type, ping_type, pong_type,
  close_type, other_type, handle_frame, on_frame, touch_session, status_no_handler, status_bad_req,
}
use wireless_gateway.Gateway.Invariant.{Sound, Inv}
use wireless_gateway.Gateway.Invariant.Sessions.{touch_session-Inv}

pub Quiet-Inv : (s t : Server) → Quiet s t → Inv s → Inv t
Quiet-Inv s t q v = record {
  calls = rw (q.sessions, q.calls) v.calls;
  waiting = rw (q.sessions, q.waiting) v.waiting;
}

enqueue-Inv : (c : Call) (s : Server) → Sound s.sessions c → Inv s → Inv (enqueue c s)
unfolding enqueue
enqueue-Inv c s k v =
    elim (Bool-cases
      (is_some (find_key c.fid s.handlers) || is_some (find_key c.fid s.fid_queues))) [
        | inl e ↦ rw e (record {
          calls = All-append (Sound s.sessions) s.calls _ v.calls (bound, tt);
          waiting = v.waiting;
        })
        | inr e ↦ rw e (Quiet-Inv s _ (send_status-Quiet c status_no_handler s) v)
      ]
  where
    bound : Sound s.sessions (record c { handler = find_key c.fid s.handlers })
    bound = record { session = k.session; id_range = k.id_range; fid_used = k.fid_used }

accept-Inv :
    (c : Call) (flags sid : Option ℤ) (s : Server)
    → Sound s.sessions c
    → Inv s
    → Inv (accept c flags sid s)
unfolding accept
accept-Inv c none sid s k v = Quiet-Inv s _ (send_status-Quiet c status_bad_req s) v
accept-Inv c (some flags) none s k v = Quiet-Inv s _ (send_status-Quiet _ status_bad_req s) v
accept-Inv c (some flags) (some sid) s k v =
    enqueue-Inv _ s (record { session = k.session; id_range = omega arith; fid_used = k.fid_used })
      v

module _ (cjson : CJson) (ms_to_ticks : ℕ → ℕ) where
  take_call-Inv :
      (fd : ℕ) (json : cjson.Node) (s : Server)
      → is_some (find_session fd s.sessions) ≡ true
      → Inv s
      → Inv (take_call cjson ms_to_ticks fd json s)
  unfolding take_call
  take_call-Inv fd json s h v =
      elim (Bool-cases (fid_of (item_kind cjson json (codes "FID")) == 0)) [
        | inl e ↦ rw e v
        | inr e ↦ rw e (
            accept-Inv _ _ _ s
              (record { session = h; id_range = omega arith; fid_used = ground arith }) v)
      ]

  read_call-Inv :
      (fd : ℕ) (json : Option cjson.Node) (s : Server)
      → is_some (find_session fd s.sessions) ≡ true
      → Inv s
      → Inv (read_call cjson ms_to_ticks fd json s)
  read_call-Inv fd none s h v = v
  read_call-Inv fd (some json) s h v = take_call-Inv fd json s h v

  on_text-Inv :
      (fd : ℕ) (payload : Text) (s : Server) → Inv s → Inv (on_text cjson ms_to_ticks fd payload s)
  unfolding on_text
  on_text-Inv fd [] s v = v
  on_text-Inv fd (b ∷ bs) s v = elim (Option-cases (find_session fd s.sessions)) [
    | inl e ↦ rw (e, on_text) v
    | inr (t, e) ↦ elim (Bool-cases (answer s.mallocs)) [
      | inr m ↦ rw (e, on_text) (rw m spent)
      | inl m ↦ rw (e, on_text) (rw m (read_call-Inv fd (cjson.parse (b ∷ bs)) _ (rw e) spent))
    ]
  ]
    where
      spent : Inv (record s { mallocs = rest s.mallocs })
      spent = record { calls = v.calls; waiting = v.waiting }

  handle_frame-Inv :
      (fd : ℕ) (type : FrameType) (payload : Text) (s : Server)
      → Inv s
      → Inv (handle_frame cjson ms_to_ticks fd type payload s)
  handle_frame-Inv fd text_type payload s v = on_text-Inv fd payload s v
  handle_frame-Inv fd ping_type payload s v = Quiet-Inv s _ (send_frame-Quiet fd (pong payload) s) v
  handle_frame-Inv fd pong_type payload s v = v
  handle_frame-Inv fd close_type payload s v = Quiet-Inv s _ (send_frame-Quiet fd close s) v
  handle_frame-Inv fd other_type payload s v = v

  pub on_frame-Inv :
      (fd : ℕ) (type : FrameType) (payload : Text) (now : ℕ) (s : Server)
      → Inv s
      → Inv (on_frame cjson ms_to_ticks fd type payload now s)
  unfolding on_frame
  on_frame-Inv fd type payload now s v =
      handle_frame-Inv fd type payload (touch_session fd now s) (touch_session-Inv fd now s v)
