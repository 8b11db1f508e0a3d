-- ===== src/Terminal/Invariant/Run.antt =====
-- The invariant over every sequence of events, from a new page on.
use wireless_gateway.Prelude.{
  ℕ, ◌≡◌, refl, Bool, List, [], ◌∷◌, true, false, arith, inl, inr, Bool-cases,
}
use wireless_gateway.Terminal.World.{World, ReadyState, opened, closed, Page, Browser, after}
use wireless_gateway.Terminal.Events.{
  start, Event, click_connect, click_clear, click_echo, press_enter, edit_url, press_key, input,
  socket_opened, socket_message, socket_closed, socket_failed, timer_fired, Key, key_c, key_l,
  other_key, on_key, on_connect_button, on_enter, dispatch, run, mark, expire, is_connecting,
  is_opened, is_live, state_of, has_timer,
}
use wireless_gateway.Terminal.Invariant.{Inv, Keeps, on_page-Keeps, on_browser-Keeps, show-Keeps}
use wireless_gateway.Terminal.Invariant.Handlers.{
  toggle_echo-Keeps, on_open-Keeps, on_resubscribe_timer-Keeps, on_close-Keeps, on_error-Keeps,
  connect-Keeps, disconnect-Keeps, handle_user_input-Keeps, send_break_signal-Keeps,
}
use wireless_gateway.Terminal.Invariant.Messages.{handle_web_socket_message-Keeps}

on_key-Keeps : (ctrl selected : Bool) (k : Key) → Keeps (on_key ctrl selected k)
unfolding on_key
on_key-Keeps true true key_c w v = v
on_key-Keeps true false key_c w v = send_break_signal-Keeps w v
on_key-Keeps true true key_l w v = show-Keeps _ w v
on_key-Keeps true false key_l w v = show-Keeps _ w v
on_key-Keeps true true other_key w v = v
on_key-Keeps true false other_key w v = v
on_key-Keeps false selected key_c w v = v
on_key-Keeps false selected key_l w v = v
on_key-Keeps false selected other_key w v = v

mark-Keeps : (id : ℕ) (s : ReadyState) → Keeps (mark id s)
mark-Keeps id s = on_browser-Keeps _ (λ b. refl)

expire-Keeps : (t : ℕ) → Keeps (expire t)
expire-Keeps t = on_browser-Keeps _ (λ b. refl)

-- Every event keeps the invariant.
pub dispatch-Keeps : (e : Event) → Keeps (dispatch e)
unfolding dispatch on_connect_button on_enter
dispatch-Keeps click_connect w v = ground (arith, connect-Keeps w v, disconnect-Keeps w v)
dispatch-Keeps click_clear w v = show-Keeps _ w v
dispatch-Keeps click_echo w v = toggle_echo-Keeps w v
dispatch-Keeps press_enter w v = ground (arith, connect-Keeps w v)
dispatch-Keeps (edit_url url) w v = on_page-Keeps (λ p. record p { url = url }) w v
dispatch-Keeps (press_key ctrl selected key) w v = on_key-Keeps ctrl selected key w v
dispatch-Keeps (input text) w v = handle_user_input-Keeps text w v
dispatch-Keeps (socket_opened id) w v = elim (Bool-cases (is_connecting (state_of w id))) [
  | inl e ↦ rw e (on_open-Keeps _ (mark-Keeps id opened w v))
  | inr e ↦ rw e v
]
dispatch-Keeps (socket_message id m) w v = elim (Bool-cases (is_opened (state_of w id))) [
  | inl e ↦ rw e (handle_web_socket_message-Keeps m w v)
  | inr e ↦ rw e v
]
dispatch-Keeps (socket_closed id) w v = elim (Bool-cases (is_live (state_of w id))) [
  | inl e ↦ rw e (on_close-Keeps _ (mark-Keeps id closed w v))
  | inr e ↦ rw e v
]
dispatch-Keeps (socket_failed id m) w v = elim (Bool-cases (is_live (state_of w id))) [
  | inl e ↦ rw e (on_error-Keeps m w v)
  | inr e ↦ rw e v
]
dispatch-Keeps (timer_fired t) w v = elim (Bool-cases (has_timer t w.browser.timers)) [
  | inl e ↦ rw e (on_resubscribe_timer-Keeps _ (expire-Keeps t w v))
  | inr e ↦ rw e v
]

run-Keeps : (es : List Event) (w : World) → Inv w → Inv (run es w)
unfolding run
run-Keeps [] w v = v
run-Keeps (e ∷ es) w v = run-Keeps es (after (dispatch e w)) (dispatch-Keeps e w v)

-- After any events on a new page, every command that was sent is a registration under a session id
-- from 1 to 0xffff, or bytes for the UART under such an id; and the page has drawn its id for
-- sending bytes whenever it takes itself for connected.
pub run-start-Inv :
    (page : Page) (browser : Browser) (es : List Event)
    → browser.sent ≡ []
    → Inv (run es (start page browser))
run-start-Inv page browser es none_sent = run-Keeps es (start page browser) first
  where
    first : Inv (start page browser)
    first =
        unfold start in
        record {
          subscription_range = tt;
          tx_range = tt;
          tx_drawn = λ e. cc;
          commands = rw none_sent tt;
        }
