-- ===== src/Terminal/Traffic.antt =====
-- Messages from the gateway, and bytes to it (script.js).
use Prim.Native.String.{◌++◌ as concat}
use wireless_gateway.Prelude.{
  ℕ, suc, true, not, ◌&&◌, ◌||◌, List, [], ◌∷◌, Option, none, some, String, Text, codes,
  if◌then◌else◌, is_some, ltb, length,
}
use wireless_gateway.Prelude.Decimal.{decimal}
use wireless_gateway.Base64.{btoa}
use wireless_gateway.Base64.Decode.{atob}
use wireless_gateway.Terminal.Json.{Json, str, property, is_truthy, is_string, is_null, to_text}
use wireless_gateway.Terminal.Utf8.{encode}
use wireless_gateway.Terminal.World.{
  thrown, type_error, syntax_error, invalid_character, range_error, Packet, Action, decoded, write,
  skip, ◌>>◌, attempt, modify, on_page, show, writeln, send, clear_timeout,
}
use wireless_gateway.Terminal.Session.{rx_fid}
use wireless_gateway.Terminal.View.{show_error}

abbrev pub tx_fid : Text
tx_fid = codes "0x00001022"

abbrev pub subscribed_status : Text
subscribed_status = codes "0x00000005"

abbrev pub tx_command : Option ℕ → Json → Packet
tx_command sid arg = record { fid = tx_fid; sid = sid; flags = 0; arg = some arg }

-- Echo back to the UART, if that is enabled.
unfoldable pub echo_back : Json → Action
echo_back arg w =
    if w.this.echo_enabled && w.this.is_connected && is_some w.this.socket
    then send (tx_command w.this.tx_sid arg) w
    else skip w

abbrev pub decode_error : String
decode_error = "\u{1b}[31m[Ошибка декодирования]\u{1b}[0m "

-- The body of the `try`: `atob` throws where the text is no Base64.
unfoldable pub read_uart_data : Json → Action
read_uart_data arg w = elim (atob (to_text arg)) [
  | none ↦ thrown invalid_character w
  | some bytes ↦ (do show (decoded bytes); echo_back arg) w
]

unfoldable pub process_uart_data : Json → Action
process_uart_data arg = attempt (read_uart_data arg) (λ error. show (write decode_error))

unfoldable pub count_packet : Action
count_packet w =
    (do
      modify (λ t. record t { packet_count = suc t.packet_count })
      on_page (λ p. record p {
        packet_text = decimal (suc w.this.packet_count);
        last_activity = w.browser.clock;
      }))
      w

unfoldable pub confirm_subscription : Action
confirm_subscription = do
  modify (λ t. record t { is_registered = true })
  (λ w. clear_timeout w.this.resubscribe_timer w)
  writeln "\u{1b}[32m✓ Подписка подтверждена\u{1b}[0m"

-- The body of `if (packet.FID === "0x00001021" && packet.ARG)`.
unfoldable pub on_uart_packet : Json → Action
on_uart_packet arg w =
    if is_string subscribed_status (property (codes "STA") arg)
    then confirm_subscription w
    else if w.this.is_registered
    then process_uart_data arg w
    else skip w

abbrev pub uart_argument : Json → Option Json
uart_argument packet =
    if is_string rx_fid (property (codes "FID") packet)
    then elim (property (codes "ARG") packet) [
      | none ↦ none
      | some arg ↦ if is_truthy arg then some arg else none
    ]
    else none

-- What the page makes of the argument of a message, if it has one for the terminal.
abbrev pub uart_message : Option Json → Action
uart_message none w = skip w
uart_message (some arg) w = on_uart_packet arg w

-- `packet.FID`, which throws on `null`, and what follows it.
unfoldable pub read_packet : Json → Action
read_packet packet w =
    if is_null packet then thrown type_error w else uart_message (uart_argument packet) w

-- The body of the `try`; `none` is a text that `JSON.parse` refuses.
unfoldable pub read_message : Option Json → Action
read_message none w = thrown syntax_error w
read_message (some packet) w = (do count_packet; read_packet packet) w

-- The handler of the `catch` logs to the console only.
unfoldable pub handle_web_socket_message : Option Json → Action
handle_web_socket_message m = attempt (read_message m) (λ error. skip)

-- The text is given by its 16-bit code units. The bytes are spread over the arguments of one call,
-- before the `try`.
unfoldable pub handle_user_input : List ℕ → Action
handle_user_input text w =
    if not w.this.is_connected || not (is_some w.this.socket)
    then show_error "Не подключено к серверу" w
    else if ltb w.browser.max_arguments (length (encode text))
    then thrown range_error w
    else attempt (send (tx_command w.this.tx_sid (str (btoa (encode text)))))
        (λ error v. show_error (concat "Ошибка отправки: " (v.browser.message_of error)) v) w

abbrev pub break_sent : String
break_sent = "\u{1b}[33m[Отправлен Break]\u{1b}[0m"

unfoldable pub send_break_signal : Action
send_break_signal w =
    if w.this.is_connected && is_some w.this.socket
    then (do send (tx_command w.this.tx_sid (str (btoa (3 ∷ [])))); writeln break_sent) w
    else skip w
