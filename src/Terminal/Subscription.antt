-- ===== src/Terminal/Subscription.antt =====
-- How the page subscribes to the UART, repeats its registration and learns of its confirmation
-- (main/flash_data/terminal/script.js).
use wireless_gateway.Prelude.{
  ℕ, zero, suc, ◌+◌, ◌≡◌, refl, ap, ◌∙◌, sym, subst, String, ◌&&◌, true, false, not, List, [], ◌∷◌,
  ◌++◌, none, some, codes, arith, get_elem?, set, if◌then◌else◌,
}
use wireless_gateway.Terminal.Json.{Json, property, is_string, is_truthy}
use wireless_gateway.Terminal.World.{
  ReadyState, connecting, opened, World, line, modify, done, after, remove, clear_timeout,
  random_sid, set_resubscribe, ◌>>◌, writeln, update,
}
use wireless_gateway.Terminal.View.{update_status, update_connection_status, green}
use wireless_gateway.Terminal.Session.{
  rx_fid, register_command, register_client, on_open, on_resubscribe_timer,
}
use wireless_gateway.Terminal.Traffic.{
  subscribed_status, confirm_subscription, on_uart_packet, uart_argument, uart_message,
  handle_web_socket_message,
}
use wireless_gateway.Terminal.Events.{
  socket_opened, timer_fired, dispatch, is_connecting, state_of, has_timer, mark, expire,
}
use wireless_gateway.Terminal.Typing.{Online, send-Online}
use wireless_gateway.Terminal.Messages.{counted, handle_message}

-- A registration goes out: one command under a session id that has just been drawn, and a new timer.
pub record Registers (id : ℕ) (w v : World) : Type 0 where
  pub sent :
      v.browser.sent
      ≡ w.browser.sent ++ (id, register_command (some (random_sid w.browser w.browser.drawn))) ∷ []
  pub subscription : v.this.subscription_sid ≡ some (random_sid w.browser w.browser.drawn)
  pub tx : v.this.tx_sid ≡ some (random_sid w.browser (w.browser.drawn + 1))
  pub timer : v.this.resubscribe_timer ≡ some w.browser.next_timer
  pub timers : v.browser.timers ≡ w.browser.timers ++ w.browser.next_timer ∷ []
  pub connected : v.this.is_connected ≡ w.this.is_connected
  pub registered : v.this.is_registered ≡ w.this.is_registered

abbrev pub drawn_sids : World → World
drawn_sids w = record w {
  this = record (w.this) {
    subscription_sid = some (random_sid w.browser w.browser.drawn);
    tx_sid = some (random_sid w.browser (w.browser.drawn + 1));
  };
  browser = record (w.browser) { drawn = w.browser.drawn + 2 };
}

abbrev pub registering : ℕ → World → World
registering id w = record w {
  this = record (w.this) {
    subscription_sid = some (random_sid w.browser w.browser.drawn);
    tx_sid = some (random_sid w.browser (w.browser.drawn + 1));
    resubscribe_timer = some w.browser.next_timer;
  };
  browser = record (w.browser) {
    drawn = w.browser.drawn + 2;
    sent =
        w.browser.sent ++ (id, register_command (some (random_sid w.browser w.browser.drawn))) ∷ [];
    screen = w.browser.screen ++ line "\u{1b}[32m✓ Регистрация отправлена\u{1b}[0m" ∷ [];
    timers = w.browser.timers ++ w.browser.next_timer ∷ [];
    next_timer = suc w.browser.next_timer;
  };
}

pub register_client-registering :
    (id : ℕ) (w : World) → Online id w → register_client w ≡ done (registering id w)
unfolding register_client set_resubscribe
register_client-registering id w online =
    rw
      (send-Online id (register_command (some (random_sid w.browser w.browser.drawn)))
        (drawn_sids w)
        (record { connected = online.connected; socket = online.socket; ready = online.ready }))
      refl

register_client-Registers :
    (id : ℕ) (w : World) → Online id w → Registers id w (after (register_client w))
register_client-Registers id w online = rw (register_client-registering id w online) (record {
  sent = refl;
  subscription = refl;
  tx = refl;
  timer = refl;
  timers = refl;
  connected = refl;
  registered = refl;
})

abbrev pub retrying : String
retrying = "\u{1b}[33m[Повтор регистрации...]\u{1b}[0m"

on_resubscribe_timer-Registers :
    (id : ℕ) (w : World)
    → Online id w
    → w.this.is_registered ≡ false
    → Registers id w (after (on_resubscribe_timer w))
unfolding on_resubscribe_timer
on_resubscribe_timer-Registers id w online unregistered =
    let v = after (writeln retrying w) in
    let sent =
      register_client-Registers id v
        (record { connected = online.connected; socket = online.socket; ready = online.ready }) in
    subst
      (λ b. Registers id w (after (if b then (writeln retrying >> register_client) w else done w)))
      (sym (due w unregistered online.connected))
      (record {
        sent = sent.sent;
        subscription = sent.subscription;
        tx = sent.tx;
        timer = sent.timer;
        timers = sent.timers;
        connected = sent.connected;
        registered = sent.registered;
      })
  where
    due :
        (w : World)
        → w.this.is_registered ≡ false
        → w.this.is_connected ≡ true
        → (not w.this.is_registered && w.this.is_connected) ≡ true
    due w u c = ground arith

-- While the page is online and its registration is not confirmed, the timer, if it is still set,
-- repeats the registration under newly drawn ids, and sets the next.
pub timer_fired-Registers :
    (id t : ℕ) (w : World)
    → Online id w
    → w.this.is_registered ≡ false
    → has_timer t w.browser.timers ≡ true
    → Registers id (after (expire t w)) (after (dispatch (timer_fired t) w))
unfolding dispatch
timer_fired-Registers id t w online unregistered running =
    subst (λ b. Registers id v (after (if b then on_resubscribe_timer v else done w))) (sym running)
      (on_resubscribe_timer-Registers id v
        (record { connected = online.connected; socket = online.socket; ready = online.ready })
        unregistered)
  where
    v : World
    v = after (expire t w)

get_elem?-set-some :
    (ss : List ReadyState) (id : ℕ) (old new : ReadyState)
    → get_elem? ss id ≡ some old
    → get_elem? (set ss id new) id ≡ some new
get_elem?-set-some [] id old new h = absurd cc
get_elem?-set-some (s ∷ ss) zero old new h = refl
get_elem?-set-some (s ∷ ss) (suc id) old new h = get_elem?-set-some ss id old new h

update_self :
    (ss : List ReadyState) (id : ℕ) (old new : ReadyState)
    → get_elem? ss id ≡ some old
    → get_elem? (update ss id (λ s. new)) id ≡ some new
update_self ss id old new h =
    subst (λ o. get_elem? (elim o [ none ↦ ss | some s ↦ set ss id new ]) id ≡ some new) (sym h)
      (get_elem?-set-some ss id old new h)

-- The page as its socket opens, before it registers.
abbrev pub opening : ℕ → World → World
opening id w = after (
    (do
      mark id opened
      modify (λ t. record t { is_connected = true })
      update_status "Подключено" green
      update_connection_status true)
      w)

-- When the page's socket opens, the page takes itself for connected, sends one registration under a
-- newly drawn id, and sets one timer.
pub socket_opened-Registers :
    (id : ℕ) (w : World)
    → w.this.socket ≡ some id
    → state_of w id ≡ some connecting
    → let v = after (dispatch (socket_opened id) w) in
      (v.this.is_connected ≡ true)
      × (v.browser.sent
          ≡ w.browser.sent
            ++ (id, register_command (some (random_sid w.browser w.browser.drawn))) ∷ [])
      × (v.browser.timers ≡ w.browser.timers ++ w.browser.next_timer ∷ [])
unfolding dispatch on_open update_status update_connection_status
socket_opened-Registers id w socket state =
    rw (opens, register_client-registering id (opening id w) online) (refl, refl, refl)
  where
    opens : is_connecting (state_of w id) ≡ true
    opens = rw state refl

    online : Online id (opening id w)
    online = record {
      connected = refl;
      socket = socket;
      ready = update_self w.browser.sockets id connecting opened state;
    }

has_timer-remove : (t : ℕ) (ts : List ℕ) → has_timer t (remove t ts) ≡ false
has_timer-remove t [] = refl
has_timer-remove t (s ∷ ts) = ground (arith, has_timer-remove t ts)

-- A message of the gateway that confirms the subscription.
pub record Confirms (packet arg : Json) : Type 0 where
  pub fid : is_string rx_fid (property (codes "FID") packet) ≡ true
  pub argument : property (codes "ARG") packet ≡ some arg
  pub truthy : is_truthy arg ≡ true
  pub status : is_string subscribed_status (property (codes "STA") arg) ≡ true

handle_confirmation :
    (packet arg : Json) (w : World)
    → Confirms packet arg
    → handle_web_socket_message (some packet) w ≡ confirm_subscription (counted w)
unfolding on_uart_packet
handle_confirmation packet arg w c =
    handle_message packet w
    ∙ ap (λ a. uart_message a (counted w)) (argument packet arg c)
    ∙ rw c.status refl
  where
    argument : (packet arg : Json) → Confirms packet arg → uart_argument packet ≡ some arg
    argument packet arg c = ground (arith, c.fid, c.argument, c.truthy)

confirm_subscription-timers :
    (t : ℕ) (w : World)
    → w.this.resubscribe_timer ≡ some t
    → let v = after (confirm_subscription w) in
      (v.this.is_registered ≡ true) × (v.browser.timers ≡ remove t w.browser.timers)
unfolding confirm_subscription clear_timeout
confirm_subscription-timers t w h = ground arith

-- Once the subscription is confirmed, the page is registered, and the timer that would have repeated the
-- registration does nothing any more.
pub confirmation-timer_fired :
    (packet arg : Json) (t : ℕ) (w : World)
    → Confirms packet arg
    → w.this.resubscribe_timer ≡ some t
    → let v = after (handle_web_socket_message (some packet) w) in
      (v.this.is_registered ≡ true) × (dispatch (timer_fired t) v ≡ done v)
unfolding dispatch
confirmation-timer_fired packet arg t w c timer =
    rw (handle_confirmation packet arg w c)
      (facts.0, rw facts.1 (rw (has_timer-remove t w.browser.timers) refl))
  where
    facts :
        ((after (confirm_subscription (counted w))).this.is_registered ≡ true)
        × ((after (confirm_subscription (counted w))).browser.timers ≡ remove t w.browser.timers)
    facts = confirm_subscription-timers t (counted w) timer
