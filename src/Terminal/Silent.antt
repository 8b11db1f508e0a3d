-- ===== src/Terminal/Silent.antt =====
-- What the single handlers send while the page is not connected (main/flash_data/terminal/script.js).
use wireless_gateway.Prelude.{
  ℕ, ◌≡◌, refl, ◌∙◌, sym, subst, false, List, Option, none, some, String, arith, inl, inr,
  Option-cases,
}
use wireless_gateway.Base64.Decode.{atob}
use wireless_gateway.Terminal.Json.{Json, to_text}
use wireless_gateway.Terminal.World.{
  World, Output, Outcome, done, thrown, Exn, decoded, write, Action, after, and_then, or_else, ◌>>◌,
  show, clear_timeout, close,
}
use wireless_gateway.Terminal.View.{show_error, update_status, update_connection_status}
use wireless_gateway.Terminal.Session.{
  new_socket, connect, drop_socket, on_close, on_error, on_resubscribe_timer,
}
use wireless_gateway.Terminal.Messages.{counted, handle_message}
use wireless_gateway.Terminal.Traffic.{
  read_uart_data, read_message, uart_message, process_uart_data, echo_back, decode_error,
  confirm_subscription, on_uart_packet, count_packet, uart_argument, handle_web_socket_message,
  handle_user_input, send_break_signal,
}

-- Not connected any more, with nothing sent on the way.
pub record Unsent (w v : World) : Type 0 where
  pub offline : v.this.is_connected ≡ false
  pub sent : v.browser.sent ≡ w.browser.sent

abbrev pub Silent : Action → Type 0
Silent m = (w : World) → w.this.is_connected ≡ false → Unsent w (after (m w))

pub Unsent-trans : {u v w : World} → Unsent u v → Unsent v w → Unsent u w
Unsent-trans p q = record { offline = q.offline; sent = q.sent ∙ p.sent }

pub and_then-Unsent :
    (u : World) (o : Outcome) (k : Action)
    → Unsent u (after o)
    → Silent k
    → Unsent u (after (and_then o k))
and_then-Unsent u (done w) k v hk = Unsent-trans v (hk w v.offline)
and_then-Unsent u (thrown e w) k v hk = v

pub or_else-Unsent :
    (u : World) (o : Outcome) (h : Exn → Action)
    → Unsent u (after o)
    → ((e : Exn) → Silent (h e))
    → Unsent u (after (or_else o h))
or_else-Unsent u (done w) h v hk = v
or_else-Unsent u (thrown e w) h v hk = Unsent-trans v (hk e w v.offline)

pub Silent-seq : (m k : Action) → Silent m → Silent k → Silent (m >> k)
Silent-seq m k hm hk w h = and_then-Unsent w (m w) k (hm w h) hk

pub show-Silent : (o : Output) → Silent (show o)
show-Silent o w h = record { offline = h; sent = refl }

pub show_error-Silent : (s : String) → Silent (show_error s)
unfolding show_error
show_error-Silent s w h = ground arith

pub new_socket-Silent : Silent new_socket
unfolding new_socket
new_socket-Silent w h = ground arith

pub clear_timeout-Silent : (t : Option ℕ) → Silent (clear_timeout t)
unfolding clear_timeout
clear_timeout-Silent t w h = ground arith

pub drop_socket-Silent : Silent drop_socket
unfolding drop_socket close
drop_socket-Silent w h = ground arith

pub connect-Silent : Silent connect
unfolding connect update_status show_error new_socket
connect-Silent w h = ground arith

pub echo_back-Silent : (arg : Json) → Silent (echo_back arg)
unfolding echo_back
echo_back-Silent arg w h = ground arith

read_uart_data-Silent : (arg : Json) → Silent (read_uart_data arg)
unfolding read_uart_data
read_uart_data-Silent arg w h = elim (Option-cases (atob (to_text arg))) [
  | inl e ↦ rw (e, read_uart_data) (record { offline = h; sent = refl })
  | inr (bytes, e) ↦
      rw (e, read_uart_data)
        (Silent-seq (show (decoded bytes)) (echo_back arg) (show-Silent (decoded bytes))
          (echo_back-Silent arg) w h)
]

pub process_uart_data-Silent : (arg : Json) → Silent (process_uart_data arg)
unfolding process_uart_data
process_uart_data-Silent arg w h =
    or_else-Unsent w (read_uart_data arg w) (λ error. show (write decode_error))
      (read_uart_data-Silent arg w h) (λ e. show-Silent (write decode_error))

pub confirm_subscription-Silent : Silent confirm_subscription
unfolding confirm_subscription clear_timeout
confirm_subscription-Silent w h = ground arith

pub handle_user_input-Silent : (text : List ℕ) → Silent (handle_user_input text)
unfolding handle_user_input show_error
handle_user_input-Silent text w h = ground arith

pub send_break_signal-Silent : Silent send_break_signal
unfolding send_break_signal
send_break_signal-Silent w h = ground arith

pub on_resubscribe_timer-Silent : Silent on_resubscribe_timer
unfolding on_resubscribe_timer
on_resubscribe_timer-Silent w h = ground arith

pub on_uart_packet-Silent : (arg : Json) → Silent (on_uart_packet arg)
unfolding on_uart_packet
on_uart_packet-Silent arg w h =
    ground (arith, confirm_subscription-Silent w h, process_uart_data-Silent arg w h)

pub count_packet-Silent : Silent count_packet
unfolding count_packet
count_packet-Silent w h = record { offline = h; sent = refl }

uart_message-Silent : (a : Option Json) → Silent (uart_message a)
uart_message-Silent none w h = record { offline = h; sent = refl }
uart_message-Silent (some arg) w h = on_uart_packet-Silent arg w h

pub handle_web_socket_message-Silent : (m : Option Json) → Silent (handle_web_socket_message m)
unfolding handle_web_socket_message read_message
handle_web_socket_message-Silent none w h = record { offline = h; sent = refl }
handle_web_socket_message-Silent (some packet) w h =
    subst (λ o. Unsent w (after o)) (sym (handle_message packet w))
      (Unsent-trans (record { offline = h; sent = refl })
        (uart_message-Silent (uart_argument packet) (counted w) h))

pub on_close-Silent : Silent on_close
unfolding on_close update_status update_connection_status
on_close-Silent w h = ground arith

pub on_error-Silent : (message : String) → Silent (on_error message)
unfolding on_error update_status show_error
on_error-Silent message w h = ground arith
