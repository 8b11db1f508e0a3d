-- ===== src/Terminal/Exceptions.antt =====
-- Which events leave their handler by an exception (main/flash_data/terminal/script.js).
use wireless_gateway.Prelude.{
  ℕ, ◌≡◌, refl, ◌∙◌, Bool, true, false, not, ◌&&◌, ◌||◌, List, [], ◌∷◌, Option, none, some, arith,
  inl, inr, Bool-cases, Option-cases, is_some, String, leb, length,
}
use wireless_gateway.Base64.{btoa}
use wireless_gateway.Terminal.Json.{str}
use wireless_gateway.Terminal.Utf8.{encode}
use wireless_gateway.Terminal.World.{
  ReadyState, connecting, opened, closing, closed, World, Outcome, done, thrown, Packet, Action,
  after, is_done, and_then, writeln, send, transmit, clear_timeout, close, set_resubscribe,
}
use wireless_gateway.Terminal.View.{
  toggle_echo, show_error, update_status, update_connection_status,
}
use wireless_gateway.Terminal.Session.{
  connect, new_socket, disconnect, drop_socket, register_client, register_command, on_open,
  on_close, on_error, on_resubscribe_timer,
}
use wireless_gateway.Terminal.Traffic.{tx_command, handle_user_input, send_break_signal, break_sent}
use wireless_gateway.Terminal.Messages.{IsDone, handle_message-IsDone}
use wireless_gateway.Terminal.Events.{
  Event, click_connect, click_clear, click_echo, press_enter, edit_url, press_key, input,
  socket_opened, socket_message, socket_closed, socket_failed, timer_fired, Key, key_c, key_l,
  other_key, on_key, on_connect_button, on_enter, dispatch, is_connecting, state_of, mark,
  has_timer, expire,
}
use wireless_gateway.Terminal.Subscription.{drawn_sids, retrying}

-- The page has a socket, and the socket is not connecting any more.
abbrev pub can_send : World → Bool
can_send w = elim w.this.socket [ none ↦ false | some id ↦ not (is_connecting (state_of w id)) ]

abbrev pub is_ready : World → Bool
is_ready w = w.this.is_connected && is_some w.this.socket

-- What an event asks of the page: that a text that is to be sent fits the arguments of one call, and that
-- the page can send where the Break key, an opening socket or a retry of the registration sends.
abbrev pub is_safe : Event → World → Bool
is_safe click_connect w = true
is_safe click_clear w = true
is_safe click_echo w = true
is_safe press_enter w = true
is_safe (edit_url url) w = true
is_safe (press_key true false key_c) w = not (is_ready w) || can_send w
is_safe (press_key ctrl selected key) w = true
is_safe (input text) w = not (is_ready w) || leb (length (encode text)) w.browser.max_arguments
is_safe (socket_opened id) w =
    not (is_connecting (state_of w id)) || can_send (after (mark id opened w))
is_safe (socket_message id message) w = true
is_safe (socket_closed id) w = true
is_safe (socket_failed id message) w = true
is_safe (timer_fired t) w =
    not (has_timer t w.browser.timers)
    || w.this.is_registered
    || not w.this.is_connected
    || can_send w

abbrev registration_sent : String
registration_sent = "\u{1b}[32m✓ Регистрация отправлена\u{1b}[0m"

is_done-transmit :
    (id : ℕ) (p : Packet) (s : Option ReadyState) (w : World)
    → is_done (transmit id p s w) ≡ not (is_connecting s)
is_done-transmit id p none w = refl
is_done-transmit id p (some connecting) w = refl
is_done-transmit id p (some opened) w = refl
is_done-transmit id p (some closing) w = refl
is_done-transmit id p (some closed) w = refl

is_done-send : (p : Packet) (w : World) → is_done (send p w) ≡ can_send w
unfolding send
is_done-send p w = elim (Option-cases w.this.socket) [
  | inl e ↦ ground (arith, e)
  | inr (id, e) ↦ ground (arith, e, is_done-transmit id p (state_of w id) w)
]

is_done-and_then :
    (o : Outcome) (k : Action) → ((w : World) → IsDone (k w)) → is_done (and_then o k) ≡ is_done o
is_done-and_then (done w) k h = h w
is_done-and_then (thrown e w) k h = refl

registration_sent-IsDone :
    (w : World) → IsDone (and_then (writeln registration_sent w) set_resubscribe)
unfolding set_resubscribe
registration_sent-IsDone w = refl

is_done-register_client : (w : World) → is_done (register_client w) ≡ can_send w
unfolding register_client
is_done-register_client w =
    is_done-and_then (send (register_command (drawn_sids w).this.subscription_sid) (drawn_sids w)) _
      registration_sent-IsDone
    ∙ is_done-send _ (drawn_sids w)

disconnect-IsDone : (w : World) → IsDone (disconnect w)
unfolding disconnect update_status update_connection_status drop_socket close clear_timeout
disconnect-IsDone w = ground arith

connect-IsDone : (w : World) → IsDone (connect w)
unfolding connect update_status show_error new_socket
connect-IsDone w = ground arith

is_done-send_break_signal :
    (w : World) → is_done (send_break_signal w) ≡ (not (is_ready w) || can_send w)
unfolding send_break_signal
is_done-send_break_signal w = elim (Bool-cases (is_ready w)) [
  | inl e ↦ rw e (
      is_done-and_then (send (tx_command w.this.tx_sid (str (btoa (3 ∷ [])))) w)
        (writeln break_sent) (λ v. refl)
      ∙ is_done-send (tx_command w.this.tx_sid (str (btoa (3 ∷ [])))) w)
  | inr e ↦ rw e refl
]

is_done-handle_user_input :
    (text : List ℕ) (w : World)
    → is_done (handle_user_input text w)
      ≡ (not (is_ready w) || leb (length (encode text)) w.browser.max_arguments)
unfolding handle_user_input show_error
is_done-handle_user_input text w = ground arith

is_done-on_open : (w : World) → is_done (on_open w) ≡ can_send w
unfolding on_open update_status update_connection_status
is_done-on_open w = is_done-and_then (register_client _) _ (λ u. refl) ∙ is_done-register_client _

is_done-on_resubscribe_timer :
    (w : World)
    → is_done (on_resubscribe_timer w)
      ≡ (w.this.is_registered || not w.this.is_connected || can_send w)
unfolding on_resubscribe_timer
is_done-on_resubscribe_timer w =
    elim (Bool-cases (not w.this.is_registered && w.this.is_connected)) [
      | inl e ↦ rw e (is_done-register_client (after (writeln retrying w)) ∙ ground arith)
      | inr e ↦ rw e (ground arith)
    ]

on_key-safe :
    (ctrl selected : Bool) (k : Key) (w : World)
    → is_done (on_key ctrl selected k w) ≡ is_safe (press_key ctrl selected k) w
unfolding on_key
on_key-safe true true key_c w = refl
on_key-safe true false key_c w = is_done-send_break_signal w
on_key-safe true true key_l w = refl
on_key-safe true false key_l w = refl
on_key-safe true true other_key w = refl
on_key-safe true false other_key w = refl
on_key-safe false selected key_c w = refl
on_key-safe false selected key_l w = refl
on_key-safe false selected other_key w = refl

-- In every state, an event leaves its handler by an exception exactly in these cases: typing or a paste,
-- where the page takes itself for connected and has a socket, and the text has more UTF-8 bytes than a
-- call takes arguments; the Break key (Ctrl+C without a selection), on such a page, where the page's socket
-- is still connecting; a socket that opens where the page has no socket or one that is still connecting;
-- and a timer that repeats the registration where that is so.
pub is_done-dispatch : (e : Event) (w : World) → is_done (dispatch e w) ≡ is_safe e w
unfolding dispatch on_connect_button on_enter toggle_echo on_close on_error update_status
    update_connection_status show_error
is_done-dispatch click_connect w = ground (arith, disconnect-IsDone w, connect-IsDone w)
is_done-dispatch click_clear w = refl
is_done-dispatch click_echo w = ground arith
is_done-dispatch press_enter w = ground (arith, connect-IsDone w)
is_done-dispatch (edit_url url) w = refl
is_done-dispatch (press_key ctrl selected key) w = on_key-safe ctrl selected key w
is_done-dispatch (input text) w = is_done-handle_user_input text w
is_done-dispatch (socket_opened old) w = elim (Bool-cases (is_connecting (state_of w old))) [
  | inl e ↦ rw e (is_done-on_open (after (mark old opened w)))
  | inr e ↦ rw e refl
]
is_done-dispatch (socket_message old m) w = ground (arith, handle_message-IsDone m w)
is_done-dispatch (socket_closed old) w = ground arith
is_done-dispatch (socket_failed old m) w = ground arith
is_done-dispatch (timer_fired t) w = elim (Bool-cases (has_timer t w.browser.timers)) [
  | inl e ↦ rw e (is_done-on_resubscribe_timer (after (expire t w)))
  | inr e ↦ rw e refl
]
