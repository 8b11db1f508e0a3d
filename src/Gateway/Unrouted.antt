-- ===== src/Gateway/Unrouted.antt =====
-- A call whose FID has a handler but no queue (ws_server/src/ws_server.c).
use wireless_gateway.Prelude.{ℕ, ◌≡◌, refl, true, false, [], ◌∷◌, ◌++◌, none, some, arith}
use wireless_gateway.Gateway.State.{Call, text, flag_to_delete, flag_new, has_flag, find_key}
use wireless_gateway.Gateway.Response.{status_text, response_text}
use wireless_gateway.Gateway.Send.{send_status}
use wireless_gateway.Gateway.Forward.{Pass, is_throttled, forward_one, status_invalid}
use wireless_gateway.Gateway.Routing.{send_json-answers}

is_throttled-new :
    (now : ℕ) (c : Call) → has_flag c.flags flag_new ≡ true → is_throttled now c ≡ false
is_throttled-new now c h = ground arith

-- While memory and the transport hold out, a new call that is no delete request and whose FID has
-- no queue is answered INVALID when the worker comes to it, and goes into neither list; this is so
-- whether or not it has a handler, and none is invoked.
pub forward_one-unrouted :
    (now : ℕ) (c : Call) (fd : ℕ) (p : Pass)
    → c.session ≡ some fd
    → has_flag c.flags flag_to_delete ≡ false
    → has_flag c.flags flag_new ≡ true
    → find_key c.fid p.server.fid_queues ≡ none
    → p.server.mallocs ≡ []
    → p.server.sends ≡ []
    → let q = forward_one now c p in
      (q.before ≡ p.before)
      × (q.behind ≡ p.behind)
      × (q.server.waiting ≡ p.server.waiting)
      × (q.server.invoked ≡ p.server.invoked)
      × (q.server.outbox
          ≡ p.server.outbox
            ++ (fd, text (response_text c.fid c.id (status_text status_invalid))) ∷ [])
unfolding forward_one send_status
forward_one-unrouted now c fd p session kept new unrouted mallocs sends =
    rw (kept, is_throttled-new now c new)
      (rw (unrouted, forward_one)
        (rw (send_json-answers c (status_text status_invalid) p.server fd session mallocs sends)
          (refl, refl, refl, refl, refl)))
