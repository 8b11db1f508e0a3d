-- ===== src/Terminal/Reconnect.antt =====
-- A connection that is lost and made again (main/flash_data/terminal/script.js).
use wireless_gateway.Prelude.{
  ℕ, ◌≡◌, true, [], ◌∷◌, Option, none, some, arith, inl, inr, Bool-cases, Option-cases, get_elem?,
}
use wireless_gateway.Terminal.World.{
  ReadyState, connecting, opened, closing, closed, Packet, World, Outcome, done, thrown, Action,
  after, and_then, ◌>>◌, send, transmit, set_resubscribe, writeln, modify,
}
use wireless_gateway.Terminal.View.{update_status, update_connection_status, show_error, green}
use wireless_gateway.Terminal.Session.{
  connect, new_socket, register_command, register_client, on_open, on_close, on_resubscribe_timer,
}
use wireless_gateway.Terminal.Events.{
  socket_opened, socket_closed, press_enter, timer_fired, dispatch, on_enter, is_connecting,
  is_live, state_of, run, mark,
}
use wireless_gateway.Terminal.Subscription.{drawn_sids}

-- The page takes itself for registered before and after.
abbrev pub Stays : Action → Type 0
Stays m = (w : World) → w.this.is_registered ≡ true → (after (m w)).this.is_registered ≡ true

and_then-Stays :
    (o : Outcome) (k : Action)
    → (after o).this.is_registered ≡ true
    → Stays k
    → (after (and_then o k)).this.is_registered ≡ true
and_then-Stays (done w) k h hk = hk w h
and_then-Stays (thrown e w) k h hk = h

Stays-seq : (m k : Action) → Stays m → Stays k → Stays (m >> k)
Stays-seq m k hm hk w h = and_then-Stays (m w) k (hm w h) hk

transmit-Stays : (id : ℕ) (p : Packet) (s : Option ReadyState) → Stays (transmit id p s)
transmit-Stays id p none w h = h
transmit-Stays id p (some connecting) w h = h
transmit-Stays id p (some opened) w h = h
transmit-Stays id p (some closing) w h = h
transmit-Stays id p (some closed) w h = h

send-Stays : (p : Packet) → Stays (send p)
unfolding send
send-Stays p w h = elim (Option-cases w.this.socket) [
  | inl e ↦ rw (e, send) h
  | inr (id, e) ↦ rw (e, send) (transmit-Stays id p (get_elem? w.browser.sockets id) w h)
]

register_client-Stays : Stays register_client
unfolding register_client set_resubscribe
register_client-Stays w h =
    and_then-Stays (send (register_command (drawn_sids w).this.subscription_sid) (drawn_sids w))
      (writeln "\u{1b}[32m✓ Регистрация отправлена\u{1b}[0m" >> set_resubscribe)
      (send-Stays (register_command (drawn_sids w).this.subscription_sid) (drawn_sids w) h)
      (λ v k. k)

abbrev announced : World → World
announced w = after (
    (do
      modify (λ t. record t { is_connected = true })
      update_status "Подключено" green
      update_connection_status true)
      w)

on_open-Stays : Stays on_open
unfolding on_open update_status update_connection_status
on_open-Stays w h =
    and_then-Stays (register_client (announced w))
      (writeln "\u{1b}[33mОтправка регистрационной команды...\u{1b}[0m")
      (register_client-Stays (announced w) h) (λ v k. k)

connect-Stays : Stays connect
unfolding connect new_socket update_status show_error
connect-Stays w h = ground arith

close-Stays : (id : ℕ) → Stays (dispatch (socket_closed id))
unfolding dispatch on_close update_status update_connection_status
close-Stays id w h = elim (Bool-cases (is_live (state_of w id))) [ inl e ↦ rw e h | inr e ↦ rw e h ]

enter-Stays : Stays (dispatch press_enter)
unfolding dispatch on_enter
enter-Stays w h = ground (arith, connect-Stays w h)

open-Stays : (id : ℕ) → Stays (dispatch (socket_opened id))
unfolding dispatch
open-Stays id w h = elim (Bool-cases (is_connecting (state_of w id))) [
  | inl e ↦ rw e (on_open-Stays (after (mark id opened w)) h)
  | inr e ↦ rw e h
]

timer_fired-registered :
    (t : ℕ) (w : World)
    → w.this.is_registered ≡ true
    → (after (dispatch (timer_fired t) w)).browser.sent ≡ w.browser.sent
unfolding dispatch on_resubscribe_timer
timer_fired-registered t w h = ground arith

-- Where a registered page gets the close event of a socket, connects again by Enter, and a socket
-- opens, it still takes itself for registered, and a timer that fires then sends nothing.
pub reconnect-timer_fired :
    (old id t : ℕ) (w : World)
    → w.this.is_registered ≡ true
    → let v = run (socket_closed old ∷ press_enter ∷ socket_opened id ∷ []) w in
      (v.this.is_registered ≡ true)
      × ((after (dispatch (timer_fired t) v)).browser.sent ≡ v.browser.sent)
unfolding run
reconnect-timer_fired old id t w h =
    let lost = close-Stays old w h in
    let again = enter-Stays closed_world lost in
    let back = open-Stays id entered again in
    (back, timer_fired-registered t (after (dispatch (socket_opened id) entered)) back)
  where
    closed_world : World
    closed_world = after (dispatch (socket_closed old) w)

    entered : World
    entered = after (dispatch press_enter closed_world)
