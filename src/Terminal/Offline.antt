-- ===== src/Terminal/Offline.antt =====
-- What a page that is not connected sends (main/flash_data/terminal/script.js).
use wireless_gateway.Prelude.{
  ℕ, ◌≡◌, refl, ◌∙◌, Bool, true, false, List, [], ◌∷◌, none, All, arith, inl, inr, Bool-cases,
}
use wireless_gateway.Terminal.World.{ReadyState, World, after, clear_timeout, closed, close}
use wireless_gateway.Terminal.View.{toggle_echo, update_status, update_connection_status}
use wireless_gateway.Terminal.Session.{disconnect, drop_socket}
use wireless_gateway.Terminal.Events.{
  Event, click_connect, click_clear, click_echo, press_enter, edit_url, press_key, input,
  socket_opened, socket_message, socket_closed, socket_failed, timer_fired, Key, key_c, key_l,
  other_key, on_key, on_connect_button, on_enter, dispatch, run, mark, expire, is_live, state_of,
  has_timer,
}
use wireless_gateway.Terminal.Silent.{
  Unsent, Silent, Unsent-trans, show-Silent, connect-Silent, handle_user_input-Silent,
  send_break_signal-Silent, on_resubscribe_timer-Silent, handle_web_socket_message-Silent,
  on_close-Silent, on_error-Silent,
}

on_key-Silent : (ctrl selected : Bool) (k : Key) → Silent (on_key ctrl selected k)
unfolding on_key
on_key-Silent true true key_c w h = record { offline = h; sent = refl }
on_key-Silent true false key_c w h = send_break_signal-Silent w h
on_key-Silent true true key_l w h = record { offline = h; sent = refl }
on_key-Silent true false key_l w h = record { offline = h; sent = refl }
on_key-Silent true true other_key w h = record { offline = h; sent = refl }
on_key-Silent true false other_key w h = record { offline = h; sent = refl }
on_key-Silent false selected key_c w h = record { offline = h; sent = refl }
on_key-Silent false selected key_l w h = record { offline = h; sent = refl }
on_key-Silent false selected other_key w h = record { offline = h; sent = refl }

toggle_echo-Silent : Silent toggle_echo
unfolding toggle_echo
toggle_echo-Silent w h = ground arith

-- The events other than the opening of a socket.
abbrev opens_no_socket : Event → Bool
opens_no_socket (socket_opened id) = false
opens_no_socket e = true

abbrev pub IsOther : Event → Type 0
IsOther e = opens_no_socket e ≡ true

abbrev marked : ℕ → ReadyState → World → World
marked id s w = after (mark id s w)

abbrev expired : ℕ → World → World
expired t w = after (expire t w)

mark-Silent : (id : ℕ) (s : ReadyState) → Silent (mark id s)
mark-Silent id s w h = record { offline = h; sent = refl }

expire-Silent : (t : ℕ) → Silent (expire t)
expire-Silent t w h = record { offline = h; sent = refl }

dispatch-Silent : (e : Event) → IsOther e → Silent (dispatch e)
unfolding dispatch on_connect_button on_enter
dispatch-Silent click_connect o w h = ground (arith, connect-Silent w h)
dispatch-Silent click_clear o w h = show-Silent _ w h
dispatch-Silent click_echo o w h = toggle_echo-Silent w h
dispatch-Silent press_enter o w h = ground (arith, connect-Silent w h)
dispatch-Silent (edit_url url) o w h = record { offline = h; sent = refl }
dispatch-Silent (press_key ctrl selected key) o w h = on_key-Silent ctrl selected key w h
dispatch-Silent (input text) o w h = handle_user_input-Silent text w h
dispatch-Silent (socket_opened id) o w h = absurd cc
dispatch-Silent (socket_message id m) o w h = ground (arith, handle_web_socket_message-Silent m w h)
dispatch-Silent (socket_closed id) o w h = elim (Bool-cases (is_live (state_of w id))) [
  | inl e ↦ rw e (Unsent-trans (mark-Silent id closed w h) (on_close-Silent (marked id closed w) h))
  | inr e ↦ rw e (record { offline = h; sent = refl })
]
dispatch-Silent (socket_failed id m) o w h = ground (arith, on_error-Silent m w h)
dispatch-Silent (timer_fired t) o w h = elim (Bool-cases (has_timer t w.browser.timers)) [
  | inl e ↦ rw e (Unsent-trans (expire-Silent t w h) (on_resubscribe_timer-Silent (expired t w) h))
  | inr e ↦ rw e (record { offline = h; sent = refl })
]

-- While no socket opens, a page that is not connected stays so and sends nothing, whatever is typed,
-- pressed, received or timed out.
pub run-Unsent :
    (es : List Event) (w : World)
    → All IsOther es
    → w.this.is_connected ≡ false
    → Unsent w (run es w)
unfolding run
run-Unsent [] w os h = record { offline = h; sent = refl }
run-Unsent (e ∷ es) w os h =
    let first = dispatch-Silent e os.0 w h in
    Unsent-trans first (run-Unsent es (after (dispatch e w)) os.1 first.offline)

disconnect-Unsent : (w : World) → Unsent w (after (disconnect w))
unfolding disconnect drop_socket clear_timeout close update_status update_connection_status
disconnect-Unsent w = ground arith

disconnect-fields :
    (w : World)
    → let v = after (disconnect w) in
      (v.this.socket ≡ none)
      × (v.this.is_registered ≡ false)
      × (v.this.subscription_sid ≡ none)
      × (v.this.echo_enabled ≡ false)
unfolding disconnect drop_socket clear_timeout close update_status update_connection_status
disconnect-fields w = ground arith

-- The Disconnect button leaves the page with no socket, no subscription and no echoing, and from then on
-- nothing is sent until a socket opens, not even the request that would end the subscription.
pub disconnect-run :
    (w : World) (es : List Event)
    → All IsOther es
    → let v = after (disconnect w) in
      (v.this.socket ≡ none)
      × (v.this.is_registered ≡ false)
      × (v.this.subscription_sid ≡ none)
      × (v.this.echo_enabled ≡ false)
      × ((run es v).browser.sent ≡ w.browser.sent)
disconnect-run w es others =
    let start = disconnect-Unsent w in
    let fields = disconnect-fields w in
    let later = run-Unsent es (after (disconnect w)) others start.offline in
    (fields.0, fields.1, fields.2, fields.3, later.sent ∙ start.sent)
