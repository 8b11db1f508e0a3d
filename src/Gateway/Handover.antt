-- ===== src/Gateway/Handover.antt =====
-- How a call reaches the queue of its peripheral (ws_server/src/ws_server.c).
use wireless_gateway.Prelude.{
  true, ℕ, ◌≡◌, refl, false, List, [], ◌∷◌, ◌++◌, Option, none, some, Text, arith, if◌then◌else◌,
}
use mathlib.Core.List.{append-nil}
use wireless_gateway.Gateway.State.{
  Call, Frame, Server, flag_new, flag_long_term, flag_to_delete, has_flag, clear_new, break_call,
  find_key,
}
use wireless_gateway.Gateway.Response.{status_text}
use wireless_gateway.Gateway.Send.{send_json, send_status}
use wireless_gateway.Gateway.Forward.{
  Pass, message, post, post_copy, forward_call, confirm, is_throttled, forward_one, hand_over,
  status_busy, status_delivered,
}
use wireless_gateway.Gateway.Respond.{has_payload}
use wireless_gateway.Gateway.Routing.{answer_frame, send_json-answers}

-- What is posted: an empty argument of a long-term call is none.
abbrev pub posted : Call → Option Text
posted c =
    if has_flag c.flags flag_long_term then (if has_payload c.req then c.req else none) else c.req

-- A long-term call keeps its argument.
abbrev pub left_argument : Call → Option Text
left_argument c = if has_flag c.flags flag_long_term then c.req else none

pub forward_call-posts :
    (queue : ℕ) (c : Call) (s : Server)
    → s.mallocs ≡ []
    → s.posts ≡ []
    → forward_call queue c s ≡ (
      record c { req = left_argument c },
      record s { forwarded = s.forwarded ++ (queue, message c (posted c)) ∷ [] },
    )
unfolding forward_call post_copy post
forward_call-posts queue c s m p = ground arith

-- The status that a client is sent once a call of it has been taken over for the first time.
abbrev pub delivered_frame : ℕ → Call → List (ℕ × Frame)
delivered_frame fd c =
    if has_flag c.flags flag_new
    then (fd, answer_frame c (status_text status_delivered)) ∷ []
    else []

abbrev pub confirmed : Call → Call
confirmed c = record c { flags = if has_flag c.flags flag_new then clear_new c.flags else c.flags }

pub confirm-delivers :
    (c : Call) (fd : ℕ) (s : Server)
    → c.session ≡ some fd
    → s.mallocs ≡ []
    → s.sends ≡ []
    → confirm c s ≡ (confirmed c, record s { outbox = s.outbox ++ delivered_frame fd c })
unfolding confirm send_status
confirm-delivers c fd s session m n = ground (
  arith,
  append-nil s.outbox,
  send_json-answers c (status_text status_delivered) s fd session m n,
)

hand_over-posts :
    (queue fd : ℕ) (c : Call) (p : Pass)
    → c.session ≡ some fd
    → p.server.mallocs ≡ []
    → p.server.sends ≡ []
    → p.server.posts ≡ []
    → let q = hand_over queue c p in
      (q.before ≡ p.before)
      × (q.behind ≡ p.behind)
      × (q.server.forwarded ≡ p.server.forwarded ++ (queue, message c (posted c)) ∷ [])
      × (q.server.waiting ≡ p.server.waiting ++ confirmed (record c { req = left_argument c }) ∷ [])
      × (q.server.outbox ≡ p.server.outbox ++ delivered_frame fd c)
unfolding hand_over
hand_over-posts queue fd c p session m n k = rw (forward_call-posts queue c p.server m k) (
    rw
      (confirm-delivers (record c { req = left_argument c }) fd
        (record (p.server) { forwarded = p.server.forwarded ++ (queue, message c (posted c)) ∷ [] })
        session m n)
      (refl, refl, refl, refl, refl))

-- While memory, the transport and the queues hold out, a due call that is no delete request and
-- whose FID has a queue is posted there once, under its own FID and id and with its argument, and
-- goes to the end of the waiting list; a long-term call keeps its argument for later polls. Its
-- client is sent DELIVERED if the call is new, and the call is new no more.
pub forward_one-posts :
    (now queue fd : ℕ) (c : Call) (p : Pass)
    → c.session ≡ some fd
    → has_flag c.flags flag_to_delete ≡ false
    → is_throttled now c ≡ false
    → find_key c.fid p.server.fid_queues ≡ some queue
    → p.server.mallocs ≡ []
    → p.server.sends ≡ []
    → p.server.posts ≡ []
    → let q = forward_one now c p in
      (q.before ≡ p.before)
      × (q.behind ≡ p.behind)
      × (q.server.forwarded ≡ p.server.forwarded ++ (queue, message c (posted c)) ∷ [])
      × (q.server.waiting ≡ p.server.waiting ++ confirmed (record c { req = left_argument c }) ∷ [])
      × (q.server.outbox ≡ p.server.outbox ++ delivered_frame fd c)
unfolding forward_one
forward_one-posts now queue fd c p session kept due routed m n k =
    rw (kept, due) (rw (routed, forward_one) (hand_over-posts queue fd c p session m n k))

forward_call-busy :
    (queue fd : ℕ) (c : Call) (s : Server)
    → c.session ≡ some fd
    → s.mallocs ≡ []
    → s.sends ≡ []
    → s.posts ≡ false ∷ []
    → forward_call queue c s ≡ (
      break_call c,
      record s {
        posts = [];
        outbox = s.outbox ++ (fd, answer_frame c (status_text status_busy)) ∷ [];
      },
    )
unfolding forward_call post_copy post send_status
forward_call-busy queue fd c s session m n k = ground (
  arith,
  m,
  n,
  k,
  send_json-answers c (status_text status_busy) (record s { posts = [] }) fd session m n,
)

-- A call that is over is not confirmed.
confirm-over : (c : Call) (s : Server) → confirm (break_call c) s ≡ (break_call c, s)
unfolding confirm send_status send_json
confirm-over c s = ground arith

-- Where the queue of the FID is full, while memory and the transport hold out, a due call that is
-- no delete request is not posted; its client is sent BUSY and no DELIVERED, and the call is over,
-- and waits to be freed.
pub forward_one-busy :
    (now queue fd : ℕ) (c : Call) (p : Pass)
    → c.session ≡ some fd
    → has_flag c.flags flag_to_delete ≡ false
    → is_throttled now c ≡ false
    → find_key c.fid p.server.fid_queues ≡ some queue
    → p.server.mallocs ≡ []
    → p.server.sends ≡ []
    → p.server.posts ≡ false ∷ []
    → let q = forward_one now c p in
      (q.before ≡ p.before)
      × (q.behind ≡ p.behind)
      × (q.server.forwarded ≡ p.server.forwarded)
      × (q.server.waiting ≡ p.server.waiting ++ break_call c ∷ [])
      × (q.server.outbox ≡ p.server.outbox ++ (fd, answer_frame c (status_text status_busy)) ∷ [])
unfolding forward_one hand_over
forward_one-busy now queue fd c p session kept due routed m n k =
    rw (kept, due)
      (rw (routed, forward_one)
        (rw (forward_call-busy queue fd c p.server session m n k, confirm-over c _)
          (refl, refl, refl, refl, refl)))

forward_call-no_memory :
    (queue : ℕ) (c : Call) (s : Server)
    → s.mallocs ≡ false ∷ []
    → forward_call queue c s ≡ (c, record s { mallocs = [] })
unfolding forward_call
forward_call-no_memory queue c s m = ground arith

-- Where memory for the message is short, a new call that is no delete request and whose FID has a
-- queue is not posted, and yet, while the transport holds out and memory for the answer is had, its
-- client is sent DELIVERED, and the call goes to the waiting list.
pub forward_one-no_memory :
    (now queue fd : ℕ) (c : Call) (p : Pass)
    → c.session ≡ some fd
    → has_flag c.flags flag_to_delete ≡ false
    → has_flag c.flags flag_new ≡ true
    → find_key c.fid p.server.fid_queues ≡ some queue
    → p.server.mallocs ≡ false ∷ []
    → p.server.sends ≡ []
    → let q = forward_one now c p in
      (q.server.forwarded ≡ p.server.forwarded)
      × (q.server.waiting ≡ p.server.waiting ++ confirmed c ∷ [])
      × (q.server.outbox
          ≡ p.server.outbox ++ (fd, answer_frame c (status_text status_delivered)) ∷ [])
unfolding forward_one hand_over
forward_one-no_memory now queue fd c p session kept new routed m n =
    rw (kept, due now c new)
      (rw (routed, forward_one)
        (rw (forward_call-no_memory queue c p.server m) (
          rw (confirm-delivers c fd (record (p.server) { mallocs = [] }) session refl n)
            (refl, refl, told c new))))
  where
    due : (now : ℕ) (c : Call) → has_flag c.flags flag_new ≡ true → is_throttled now c ≡ false
    due now c new = ground arith

    told :
        (c : Call)
        → has_flag c.flags flag_new ≡ true
        → p.server.outbox ++ delivered_frame fd c
          ≡ p.server.outbox ++ (fd, answer_frame c (status_text status_delivered)) ∷ []
    told c new = ground arith
