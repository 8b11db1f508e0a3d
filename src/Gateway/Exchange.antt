-- ===== src/Gateway/Exchange.antt =====
-- A call from the list of calls to its response (ws_server/src/ws_server.c).
use wireless_gateway.Prelude.{
  ℕ, ◌≡◌, ◌≢◌, refl, sym, ap, ◌∙◌, Bool, true, false, List, [], ◌∷◌, ◌++◌, some, Text, All, arith,
  length,
}
use wireless_gateway.Gateway.State.{
  Call, Msg, Server, flag_to_delete, has_flag, find_key, call_id_match,
}
use wireless_gateway.Gateway.Forward.{
  Pass, message, is_throttled, forward_one, forward_loop, forward, hand_over,
}
use wireless_gateway.Gateway.Respond.{respond}
use wireless_gateway.Gateway.Invariant.Forward.{forward_loop-zero, forward_loop-cons}
use wireless_gateway.Gateway.Routing.{
  Finds, here, later, answer_frame, rearmed, respond-Finds, respond-forwarded,
}
use wireless_gateway.Gateway.Handover.{
  posted, left_argument, confirmed, delivered_frame, forward_call-posts, confirm-delivers,
}

-- The call as it waits, and the server after it was handed over.
abbrev pub waiting_call : Call → Call
waiting_call c = confirmed (record c { req = left_argument c })

abbrev pub handed_over : ℕ → ℕ → Call → Server → Server
handed_over queue fd c s = record s {
  forwarded = s.forwarded ++ (queue, message c (posted c)) ∷ [];
  outbox = s.outbox ++ delivered_frame fd c;
  waiting = s.waiting ++ waiting_call c ∷ [];
}

-- A call that can be handed over at once.
pub record IsDue (now queue fd : ℕ) (c : Call) (s : Server) : Type 0 where
  pub session : c.session ≡ some fd
  pub kept : has_flag c.flags flag_to_delete ≡ false
  pub due : is_throttled now c ≡ false
  pub routed : find_key c.fid s.fid_queues ≡ some queue
  pub mallocs : s.mallocs ≡ []
  pub sends : s.sends ≡ []
  pub posts : s.posts ≡ []

forward_one-handed_over :
    (now queue fd : ℕ) (c : Call) (s : Server)
    → IsDue now queue fd c s
    → forward_one now c (record { before = []; behind = []; server = s })
      ≡ record { before = []; behind = []; server = handed_over queue fd c s }
unfolding forward_one hand_over
forward_one-handed_over now queue fd c s d =
    rw (d.kept, d.due)
      (rw (d.routed, forward_one)
        (rw (forward_call-posts queue c s d.mallocs d.posts) (
          rw
            (confirm-delivers (record c { req = left_argument c }) fd
              (record s { forwarded = s.forwarded ++ (queue, message c (posted c)) ∷ [] }) d.session
              d.mallocs d.sends)
            refl)))

abbrev finish : Pass → Server
finish p = record (p.server) { calls = p.before ++ p.behind }

abbrev first_pass : List Call → Server → Pass
first_pass cs s = record { before = []; behind = cs; server = s }

forward-handed_over :
    (now queue fd : ℕ) (c : Call) (s : Server)
    → s.calls ≡ c ∷ []
    → IsDue now queue fd c s
    → forward now s ≡ record (handed_over queue fd c s) { calls = [] }
unfolding forward
forward-handed_over now queue fd c s only d =
    ap (λ cs. finish (forward_loop (length cs) now (first_pass cs s))) only
    ∙ ap finish (
        forward_loop-cons 0 now (first_pass (c ∷ []) s) c [] refl
        ∙ forward_loop-zero now (forward_one now c (first_pass [] s))
        ∙ forward_one-handed_over now queue fd c s d)

Finds-append :
    (p : Call → Bool) (cs : List Call) (c : Call)
    → All (λ d. p d ≡ false) cs
    → p c ≡ true
    → Finds p (cs ++ c ∷ []) c cs
Finds-append p [] c h e = here c [] e
Finds-append p (d ∷ cs) c h e = later d h.0 (Finds-append p cs c h.1 e)

-- While memory, the transport and the queues hold out, a call that is the only one in the list and is due
-- is posted once to the queue of its FID, under its own FID and id and with its argument; and where the
-- peripheral answers with data under its id, which is not 0 and which no call that waited before has, its
-- client is sent DELIVERED, if the call was new, and then the response. Nothing else is posted or sent,
-- the waiting list is as before, and only a long-term call is in the list of calls, to be polled again.
pub respond-forward :
    (now soon queue fd : ℕ) (c : Call) (s : Server) (msg : Msg) (b : ℕ) (bs : Text)
    → s.calls ≡ c ∷ []
    → IsDue now queue fd c s
    → c.id ≢ 0
    → msg.id ≡ c.id
    → msg.payload ≡ some (b ∷ bs)
    → All (λ d. call_id_match msg.id d ≡ false) s.waiting
    → let t = respond soon msg (forward now s) in
      (t.forwarded ≡ s.forwarded ++ (queue, message c (posted c)) ∷ [])
      × (t.outbox ≡ (s.outbox ++ delivered_frame fd c) ++ (fd, answer_frame c (b ∷ bs)) ∷ [])
      × (t.waiting ≡ s.waiting)
      × (t.calls ≡ rearmed soon (waiting_call c))
respond-forward now soon queue fd c s msg b bs only d used id payload fresh =
    let answered =
      respond-Finds soon msg t (waiting_call c) s.waiting fd b bs nonzero payload found d.session
        d.mallocs d.sends in
    rw (forward-handed_over now queue fd c s only d) (
      respond-forwarded soon msg t (waiting_call c) s.waiting fd b bs nonzero payload found
          d.session d.mallocs d.sends,
      answered.0,
      answered.1,
      answered.2,
    )
  where
    t : Server
    t = record (handed_over queue fd c s) { calls = [] }

    nonzero : msg.id ≢ 0
    nonzero e = used (sym id ∙ e)

    matches :
        (c : Call)
        → c.session ≡ some fd
        → msg.id ≡ c.id
        → call_id_match msg.id (waiting_call c) ≡ true
    matches c session id = ground arith

    found :
        Finds (call_id_match msg.id) (s.waiting ++ waiting_call c ∷ []) (waiting_call c) s.waiting
    found =
        Finds-append (call_id_match msg.id) s.waiting (waiting_call c) fresh
          (matches c d.session id)
