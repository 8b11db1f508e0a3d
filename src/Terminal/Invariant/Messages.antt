-- ===== src/Terminal/Invariant/Messages.antt =====
-- The handlers of a message of the gateway (main/flash_data/terminal/script.js), against the invariant.
use wireless_gateway.Prelude.{
  ◌&&◌, Option, none, some, arith, is_some, Option-cases, Bool-cases, inl, inr,
}
use wireless_gateway.Base64.Decode.{atob}
use wireless_gateway.Terminal.Json.{Json, is_null, to_text}
use wireless_gateway.Terminal.World.{skip, show, clear_timeout, decoded, write}
use wireless_gateway.Terminal.Traffic.{
  echo_back, read_uart_data, uart_message, read_packet, read_message, process_uart_data,
  count_packet, confirm_subscription, on_uart_packet, uart_argument, handle_web_socket_message,
  decode_error,
}
use wireless_gateway.Terminal.Invariant.{
  Keeps, Keeps-seq, Keeps-attempt, and_then-Inv, show-Keeps, send_tx-Inv,
}
use wireless_gateway.Terminal.Invariant.Handlers.{skip-Keeps, clear_timeout-Keeps}

echo_back-Keeps : (arg : Json) → Keeps (echo_back arg)
unfolding echo_back
echo_back-Keeps arg w v =
    elim (Bool-cases (w.this.echo_enabled && w.this.is_connected && is_some w.this.socket)) [
      | inl e ↦ rw e (send_tx-Inv w arg v (ground arith))
      | inr e ↦ rw e v
    ]

read_uart_data-Keeps : (arg : Json) → Keeps (read_uart_data arg)
unfolding read_uart_data
read_uart_data-Keeps arg w v = elim (Option-cases (atob (to_text arg))) [
  | inl e ↦ rw (e, read_uart_data) v
  | inr (bytes, e) ↦
      rw (e, read_uart_data)
        (Keeps-seq (show (decoded bytes)) (echo_back arg) (show-Keeps _) (echo_back-Keeps arg) w v)
]

process_uart_data-Keeps : (arg : Json) → Keeps (process_uart_data arg)
unfolding process_uart_data
process_uart_data-Keeps arg w v =
    Keeps-attempt (read_uart_data arg) (λ x. show (write decode_error)) (read_uart_data-Keeps arg)
      (λ x. show-Keeps (write decode_error)) w v

count_packet-Keeps : Keeps count_packet
unfolding count_packet
count_packet-Keeps w v = record {
  subscription_range = v.subscription_range;
  tx_range = v.tx_range;
  tx_drawn = v.tx_drawn;
  commands = v.commands;
}

confirm_subscription-Keeps : Keeps confirm_subscription
unfolding confirm_subscription
confirm_subscription-Keeps w v =
    and_then-Inv (clear_timeout w.this.resubscribe_timer _) _
      (clear_timeout-Keeps w.this.resubscribe_timer _ (record {
        subscription_range = v.subscription_range;
        tx_range = v.tx_range;
        tx_drawn = v.tx_drawn;
        commands = v.commands;
      }))
      (show-Keeps _)

on_uart_packet-Keeps : (arg : Json) → Keeps (on_uart_packet arg)
unfolding on_uart_packet
on_uart_packet-Keeps arg w v =
    ground (arith, confirm_subscription-Keeps w v, process_uart_data-Keeps arg w v)

uart_message-Keeps : (a : Option Json) → Keeps (uart_message a)
uart_message-Keeps none w v = v
uart_message-Keeps (some arg) w v = on_uart_packet-Keeps arg w v

read_packet-Keeps : (packet : Json) → Keeps (read_packet packet)
unfolding read_packet
read_packet-Keeps packet w v = elim (Bool-cases (is_null packet)) [
  | inl e ↦ rw (e, read_packet) v
  | inr e ↦ rw (e, read_packet) (uart_message-Keeps (uart_argument packet) w v)
]

read_message-Keeps : (m : Option Json) → Keeps (read_message m)
unfolding read_message
read_message-Keeps none w v = v
read_message-Keeps (some packet) w v =
    Keeps-seq count_packet (read_packet packet) count_packet-Keeps (read_packet-Keeps packet) w v

pub handle_web_socket_message-Keeps : (m : Option Json) → Keeps (handle_web_socket_message m)
unfolding handle_web_socket_message
handle_web_socket_message-Keeps m w v =
    Keeps-attempt (read_message m) (λ e. skip) (read_message-Keeps m) (λ e. skip-Keeps) w v
