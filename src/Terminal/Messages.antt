-- ===== src/Terminal/Messages.antt =====
-- A message of the gateway as the page takes it, after the exceptions that its handlers catch
-- (main/flash_data/terminal/script.js).
use wireless_gateway.Prelude.{
  ℕ, suc, ◌≡◌, refl, ◌∙◌, ap, true, false, List, Option, if◌then◌else◌, none, some, arith, inl, inr,
  Bool-cases,
}
use wireless_gateway.Prelude.Decimal.{decimal}
use wireless_gateway.Base64.Decode.{atob}
use wireless_gateway.Terminal.Json.{Json, null, bool, num, str, arr, obj, is_null, to_text}
use wireless_gateway.Terminal.World.{
  World, Outcome, done, thrown, type_error, Exn, Action, or_else, is_done, show, write, decoded,
  ◌>>◌, clear_timeout,
}
use wireless_gateway.Terminal.Traffic.{
  read_uart_data, process_uart_data, echo_back, decode_error, confirm_subscription, on_uart_packet,
  uart_argument, uart_message, count_packet, read_packet, read_message, handle_web_socket_message,
}

abbrev pub IsDone : Outcome → Type 0
IsDone o = is_done o ≡ true

pub or_else-IsDone :
    (o : Outcome) (h : Exn → Action)
    → ((e : Exn) (w : World) → IsDone (h e w))
    → IsDone (or_else o h)
or_else-IsDone (done w) h hh = refl
or_else-IsDone (thrown e w) h hh = hh e w

or_else-done : (o : Outcome) (h : Exn → Action) → IsDone o → or_else o h ≡ o
or_else-done (done w) h d = refl
or_else-done (thrown e w) h d = absurd cc

-- The page after the counters of a message have been brought up to date.
abbrev pub counted : World → World
counted w = record w {
  this = record (w.this) { packet_count = suc w.this.packet_count };
  page = record (w.page) {
    packet_text = decimal (suc w.this.packet_count);
    last_activity = w.browser.clock;
  };
}

pub process_uart_data-refused :
    (arg : Json) (w : World)
    → atob (to_text arg) ≡ none
    → process_uart_data arg w ≡ show (write decode_error) w
unfolding process_uart_data read_uart_data
process_uart_data-refused arg w e = rw (e, read_uart_data) refl

pub process_uart_data-decoded :
    (arg : Json) (bytes : List ℕ) (w : World)
    → atob (to_text arg) ≡ some bytes
    → process_uart_data arg w
      ≡ or_else ((show (decoded bytes) >> echo_back arg) w) (λ error. show (write decode_error))
unfolding process_uart_data read_uart_data
process_uart_data-decoded arg bytes w e = rw (e, read_uart_data) refl

process_uart_data-IsDone : (arg : Json) (w : World) → IsDone (process_uart_data arg w)
unfolding process_uart_data
process_uart_data-IsDone arg w = or_else-IsDone (read_uart_data arg w) _ (λ x v. refl)

confirm_subscription-IsDone : (w : World) → IsDone (confirm_subscription w)
unfolding confirm_subscription clear_timeout
confirm_subscription-IsDone w = ground arith

on_uart_packet-IsDone : (arg : Json) (w : World) → IsDone (on_uart_packet arg w)
unfolding on_uart_packet
on_uart_packet-IsDone arg w =
    ground (arith, confirm_subscription-IsDone w, process_uart_data-IsDone arg w)

uart_argument-null : (packet : Json) → is_null packet ≡ true → uart_argument packet ≡ none
uart_argument-null null h = refl
uart_argument-null (bool b) h = absurd cc
uart_argument-null (num n) h = absurd cc
uart_argument-null (str s) h = absurd cc
uart_argument-null (arr items) h = absurd cc
uart_argument-null (obj ms) h = absurd cc

pub uart_message-IsDone : (a : Option Json) (w : World) → IsDone (uart_message a w)
uart_message-IsDone none w = refl
uart_message-IsDone (some arg) w = on_uart_packet-IsDone arg w

read_packet-read :
    (packet : Json) (w : World)
    → is_null packet ≡ false
    → read_packet packet w ≡ uart_message (uart_argument packet) w
unfolding read_packet
read_packet-read packet w e =
    ap (λ b. if b then thrown type_error w else uart_message (uart_argument packet) w) e

read_packet-caught :
    (packet : Json) (w : World)
    → or_else (read_packet packet w) (λ error. done) ≡ uart_message (uart_argument packet) w
unfolding read_packet
read_packet-caught packet w = elim (Bool-cases (is_null packet)) [
  | inl e ↦ rw (e, read_packet) (rw (uart_argument-null packet e) refl)
  | inr e ↦
      ap (λ o. or_else o (λ error. done)) (read_packet-read packet w e)
      ∙ or_else-done (uart_message (uart_argument packet) w) _
          (uart_message-IsDone (uart_argument packet) w)
]

-- A message is counted, and its argument taken; the handler ends without an exception.
pub handle_message :
    (packet : Json) (w : World)
    → handle_web_socket_message (some packet) w ≡ uart_message (uart_argument packet) (counted w)
unfolding handle_web_socket_message read_message count_packet
handle_message packet w = read_packet-caught packet (counted w)

pub handle_message-IsDone : (m : Option Json) (w : World) → IsDone (handle_web_socket_message m w)
unfolding handle_web_socket_message
handle_message-IsDone m w = or_else-IsDone (read_message m w) _ (λ e v. refl)
