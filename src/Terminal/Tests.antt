-- ===== src/Terminal/Tests.antt =====
-- Runs of the web terminal at concrete inputs.
use wireless_gateway.Prelude.{
  ℕ, ◌≡◌, ◌≢◌, refl, true, false, [], ◌∷◌, none, some, codes, arith, ◌≤◌, length,
}
use wireless_gateway.Base64.{btoa, sextet_char}
use wireless_gateway.Base64.Decode.{atob}
use wireless_gateway.Terminal.Json.{str, is_truthy, to_text, lookup}
use wireless_gateway.Terminal.Utf8.{
  encode, encode_scalars, encode_char, scalars, scalars_after, emitted,
}
use wireless_gateway.Terminal.Utf8.RoundTrip.{decode_utf8}
use wireless_gateway.Terminal.World.{thrown, invalid_state, done, is_done, after, writeln}
use wireless_gateway.Terminal.View.{show_error}
use wireless_gateway.Terminal.Session.{disconnect, register_command}
use wireless_gateway.Terminal.Traffic.{
  tx_command, handle_user_input, send_break_signal, break_sent, handle_web_socket_message,
}
use wireless_gateway.Terminal.Events.{
  press_enter, input, press_key, key_c, socket_opened, socket_closed, timer_fired, start, dispatch,
  run, state_of,
}
use wireless_gateway.Terminal.Invariant.{Inv}
use wireless_gateway.Terminal.Invariant.Run.{run-start-Inv}
use wireless_gateway.Terminal.Typing.{
  Online, with_sent, handle_user_input-Online, send_break_signal-Online,
}
use wireless_gateway.Terminal.Echo.{
  IsData, received, handle_web_socket_message-received, handle_web_socket_message-unregistered,
}
use wireless_gateway.Terminal.Messages.{counted}
use wireless_gateway.Terminal.Silent.{Unsent}
use wireless_gateway.Terminal.Offline.{run-Unsent, disconnect-run}
use wireless_gateway.Terminal.Subscription.{
  Confirms, Registers, socket_opened-Registers, timer_fired-Registers, confirmation-timer_fired,
}
use wireless_gateway.Terminal.Reconnect.{reconnect-timer_fired}
use wireless_gateway.Terminal.Exceptions.{is_done-dispatch}
use wireless_gateway.Terminal.Stale.{socket_opened-thrown, after_close, socket_closed-Online}
use wireless_gateway.Terminal.Events.{expire}
use wireless_gateway.Terminal.Samples.{
  blank_page, new_browser, registered_world, waiting_world, connecting_world, reconnected_world,
  data_argument, uart_packet, confirmation, a_session, twice_world, narrow_world,
}

registered-Online : Online 0 registered_world
registered-Online = record { connected = refl; socket = refl; ready = refl }

waiting-Online : Online 0 waiting_world
waiting-Online = record { connected = refl; socket = refl; ready = refl }

reconnected-Online : Online 1 reconnected_world
reconnected-Online = record { connected = refl; socket = refl; ready = refl }

is_data : IsData (uart_packet data_argument) data_argument
unfolding lookup is_truthy
is_data = record { fid = refl; argument = refl; truthy = refl; not_status = refl }

confirms : Confirms (uart_packet confirmation) confirmation
unfolding lookup is_truthy
confirms = record { fid = refl; argument = refl; truthy = refl; status = refl }

btoa_hi : btoa (encode (codes "hi")) ≡ codes "aGk="
unfolding btoa sextet_char encode encode_scalars encode_char scalars scalars_after emitted
btoa_hi = refl

hi_fits : length (encode (codes "hi")) ≤ 65535
unfolding encode encode_scalars encode_char scalars scalars_after emitted
hi_fits = omega arith

-- U+1F600 as a pair of surrogates, and the first of them alone.
surrogates :
    (encode (0xd83d ∷ 0xde00 ∷ []) ≡ 0xf0 ∷ 0x9f ∷ 0x98 ∷ 0x80 ∷ [])
    × (encode (0xd83d ∷ []) ≡ 0xef ∷ 0xbf ∷ 0xbd ∷ [])
unfolding encode encode_scalars encode_char scalars scalars_after emitted
surrogates = (refl, refl)

run-start-Inv_example : Inv (run a_session (start blank_page new_browser))
run-start-Inv_example = run-start-Inv blank_page new_browser a_session refl

handle_user_input-Online_example :
    (handle_user_input (codes "hi") registered_world
      ≡ done
          (with_sent 0 (tx_command (some 42) (str (btoa (encode (codes "hi"))))) registered_world))
    × (atob (btoa (encode (codes "hi"))) ≡ some (encode (codes "hi")))
    × (decode_utf8 (encode (codes "hi")) ≡ scalars (codes "hi"))
handle_user_input-Online_example =
    handle_user_input-Online 0 (codes "hi") registered_world registered-Online
      (omega arith, (omega arith, tt)) hi_fits

send_break_signal-Online_example :
    (send_break_signal registered_world
      ≡ writeln break_sent
          (with_sent 0 (tx_command (some 42) (str (btoa (3 ∷ [])))) registered_world))
    × (atob (btoa (3 ∷ [])) ≡ some (3 ∷ []))
send_break_signal-Online_example = send_break_signal-Online 0 registered_world registered-Online

handle_web_socket_message-received_example :
    handle_web_socket_message (some (uart_packet data_argument)) registered_world
    ≡ done (received 0 data_argument (atob (codes "aGk=")) (counted registered_world))
unfolding to_text
handle_web_socket_message-received_example =
    handle_web_socket_message-received 0 (uart_packet data_argument) data_argument registered_world
      registered-Online is_data refl

handle_web_socket_message-unregistered_example :
    handle_web_socket_message (some (uart_packet data_argument)) waiting_world
    ≡ done (counted waiting_world)
handle_web_socket_message-unregistered_example =
    handle_web_socket_message-unregistered (uart_packet data_argument) data_argument waiting_world
      is_data refl

socket_opened-Registers_example :
    let v = after (dispatch (socket_opened 0) connecting_world) in
    (v.this.is_connected ≡ true)
    × (v.browser.sent ≡ (0, register_command (some 42)) ∷ [])
    × (v.browser.timers ≡ 1 ∷ [])
socket_opened-Registers_example = socket_opened-Registers 0 connecting_world refl refl

timer_fired-Registers_example :
    Registers 0 (after (expire 1 waiting_world)) (after (dispatch (timer_fired 1) waiting_world))
timer_fired-Registers_example = timer_fired-Registers 0 1 waiting_world waiting-Online refl refl

confirmation-timer_fired_example :
    let v = after (handle_web_socket_message (some (uart_packet confirmation)) waiting_world) in
    (v.this.is_registered ≡ true) × (dispatch (timer_fired 1) v ≡ done v)
confirmation-timer_fired_example =
    confirmation-timer_fired (uart_packet confirmation) confirmation 1 waiting_world confirms refl

run-Unsent_example :
    Unsent connecting_world
      (run (input (104 ∷ []) ∷ press_key true false key_c ∷ []) connecting_world)
run-Unsent_example =
    run-Unsent (input (104 ∷ []) ∷ press_key true false key_c ∷ []) connecting_world
      (refl, (refl, tt)) refl

disconnect-run_example :
    let v = after (disconnect registered_world) in
    (v.this.socket ≡ none)
    × (v.this.is_registered ≡ false)
    × (v.this.subscription_sid ≡ none)
    × (v.this.echo_enabled ≡ false)
    × ((run (socket_closed 0 ∷ input (104 ∷ []) ∷ []) v).browser.sent ≡ [])
disconnect-run_example =
    disconnect-run registered_world (socket_closed 0 ∷ input (104 ∷ []) ∷ []) (refl, (refl, tt))

zero_not_one : ◌≢◌ {A = ℕ} 0 1
zero_not_one e = omega (arith, e)

socket_closed-Online_example :
    let v = after_close 0 reconnected_world in
    (v.this.is_connected ≡ false)
    × (v.this.socket ≡ some 1)
    × (state_of v 1 ≡ state_of reconnected_world 1)
    × (handle_user_input (104 ∷ []) v ≡ show_error "Не подключено к серверу" v)
socket_closed-Online_example =
    socket_closed-Online 0 1 (104 ∷ []) reconnected_world zero_not_one refl reconnected-Online

socket_opened-thrown_example :
    let o = dispatch (socket_opened 0) twice_world in
    (o ≡ thrown invalid_state (after o))
    × ((after o).this.is_connected ≡ true)
    × ((after o).browser.sent ≡ [])
    × ((after o).browser.timers ≡ [])
socket_opened-thrown_example = socket_opened-thrown 0 1 twice_world zero_not_one refl refl refl

reconnect-timer_fired_example :
    let v = run (socket_closed 0 ∷ press_enter ∷ socket_opened 1 ∷ []) registered_world in
    (v.this.is_registered ≡ true)
    × ((after (dispatch (timer_fired 1) v)).browser.sent ≡ v.browser.sent)
reconnect-timer_fired_example = reconnect-timer_fired 0 1 1 registered_world refl

-- Two bytes are spread, in an engine that takes one argument.
is_done-dispatch_example : is_done (dispatch (input (codes "hi")) narrow_world) ≡ false
unfolding encode encode_scalars encode_char scalars scalars_after emitted
is_done-dispatch_example = is_done-dispatch (input (codes "hi")) narrow_world
