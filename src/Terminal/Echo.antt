-- ===== src/Terminal/Echo.antt =====
-- What a message of the gateway does to the page (main/flash_data/terminal/script.js).
use wireless_gateway.Prelude.{
  ℕ, ◌≡◌, refl, ap, ◌∙◌, true, false, List, [], ◌∷◌, ◌++◌, Option, none, some, codes, arith, inl,
  inr, Bool-cases, Option-cases, if◌then◌else◌,
}
use wireless_gateway.Base64.Decode.{atob}
use wireless_gateway.Terminal.Json.{Json, property, is_string, to_text, is_truthy}
use wireless_gateway.Terminal.World.{World, Output, decoded, write, done}
use wireless_gateway.Terminal.Session.{rx_fid}
use wireless_gateway.Terminal.Traffic.{
  tx_command, subscribed_status, process_uart_data, echo_back, decode_error, on_uart_packet,
  uart_argument, uart_message, handle_web_socket_message,
}
use wireless_gateway.Terminal.Messages.{
  counted, process_uart_data-refused, process_uart_data-decoded, handle_message,
}
use wireless_gateway.Terminal.Typing.{Online, with_sent, send-Online}

abbrev pub with_shown : Output → World → World
with_shown o w = record w { browser = record (w.browser) { screen = w.browser.screen ++ o ∷ [] } }

-- A message for the terminal: a packet of the UART's FID with an argument that is no confirmation.
pub record IsData (packet arg : Json) : Type 0 where
  pub fid : is_string rx_fid (property (codes "FID") packet) ≡ true
  pub argument : property (codes "ARG") packet ≡ some arg
  pub truthy : is_truthy arg ≡ true
  pub not_status : is_string subscribed_status (property (codes "STA") arg) ≡ false

process_uart_data-bad :
    (arg : Json) (w : World)
    → atob (to_text arg) ≡ none
    → process_uart_data arg w ≡ done (with_shown (write decode_error) w)
process_uart_data-bad arg w bad = process_uart_data-refused arg w bad

process_uart_data-quiet :
    (arg : Json) (bytes : List ℕ) (w : World)
    → atob (to_text arg) ≡ some bytes
    → w.this.echo_enabled ≡ false
    → process_uart_data arg w ≡ done (with_shown (decoded bytes) w)
unfolding echo_back
process_uart_data-quiet arg bytes w good echo =
    process_uart_data-decoded arg bytes w good ∙ ground (arith, echo)

process_uart_data-echo :
    (arg : Json) (bytes : List ℕ) (id : ℕ) (w : World)
    → atob (to_text arg) ≡ some bytes
    → w.this.echo_enabled ≡ true
    → Online id w
    → process_uart_data arg w
      ≡ done (with_sent id (tx_command w.this.tx_sid arg) (with_shown (decoded bytes) w))
unfolding echo_back
process_uart_data-echo arg bytes id w good echo online =
    process_uart_data-decoded arg bytes w good
    ∙ ground (
      arith,
      echo,
      online.connected,
      online.socket,
      send-Online id (tx_command w.this.tx_sid arg) (with_shown (decoded bytes) w)
          (record { connected = online.connected; socket = online.socket; ready = online.ready }),
    )

on_uart_packet-data :
    (arg : Json) (w : World)
    → is_string subscribed_status (property (codes "STA") arg) ≡ false
    → on_uart_packet arg w ≡ (if w.this.is_registered then process_uart_data arg w else done w)
unfolding on_uart_packet
on_uart_packet-data arg w h = rw h refl

uart_argument-IsData : (packet arg : Json) → IsData packet arg → uart_argument packet ≡ some arg
uart_argument-IsData packet arg d = ground (arith, d.fid, d.argument, d.truthy)

handle_data :
    (packet arg : Json) (w : World)
    → IsData packet arg
    → handle_web_socket_message (some packet) w
      ≡ (if w.this.is_registered then process_uart_data arg (counted w) else done (counted w))
handle_data packet arg w d =
    handle_message packet w
    ∙ ap (λ a. uart_message a (counted w)) (uart_argument-IsData packet arg d)
    ∙ on_uart_packet-data arg (counted w) d.not_status

-- Before its registration is confirmed, the page counts a data message and shows nothing of it.
pub handle_web_socket_message-unregistered :
    (packet arg : Json) (w : World)
    → IsData packet arg
    → w.this.is_registered ≡ false
    → handle_web_socket_message (some packet) w ≡ done (counted w)
handle_web_socket_message-unregistered packet arg w d unregistered =
    handle_data packet arg w d ∙ rw unregistered refl

-- What a registered page makes of an argument: an error where it is no Base64, and else the text of its
-- bytes, with the same argument sent back to the UART where echoing is on.
abbrev pub received : ℕ → Json → Option (List ℕ) → World → World
received id arg none w = with_shown (write decode_error) w
received id arg (some bytes) w =
    if w.this.echo_enabled
    then with_sent id (tx_command w.this.tx_sid arg) (with_shown (decoded bytes) w)
    else with_shown (decoded bytes) w

process_uart_data-received :
    (id : ℕ) (arg : Json) (w : World)
    → Online id w
    → process_uart_data arg w ≡ done (received id arg (atob (to_text arg)) w)
process_uart_data-received id arg w online = elim (Option-cases (atob (to_text arg))) [
  | inl e ↦ process_uart_data-bad arg w e ∙ rw e refl
  | inr (bytes, e) ↦ elim (Bool-cases w.this.echo_enabled) [
    | inl echo ↦ process_uart_data-echo arg bytes id w e echo online ∙ rw e (rw echo refl)
    | inr echo ↦ process_uart_data-quiet arg bytes w e echo ∙ rw e (rw echo refl)
  ]
]

-- A page that is online and registered counts a data message and then shows an error where the argument
-- is no Base64; else it shows the text of the bytes, and, with echoing on, sends the argument back to the
-- UART under its own session id; and nothing else changes.
pub handle_web_socket_message-received :
    (id : ℕ) (packet arg : Json) (w : World)
    → Online id w
    → IsData packet arg
    → w.this.is_registered ≡ true
    → handle_web_socket_message (some packet) w
      ≡ done (received id arg (atob (to_text arg)) (counted w))
handle_web_socket_message-received id packet arg w online d registered =
    handle_data packet arg w d
    ∙ ap (λ b. if b then process_uart_data arg (counted w) else done (counted w)) registered
    ∙ process_uart_data-received id arg (counted w)
        (record { connected = online.connected; socket = online.socket; ready = online.ready })
