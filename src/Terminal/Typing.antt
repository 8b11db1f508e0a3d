-- ===== src/Terminal/Typing.antt =====
-- What typing and the Break key send to the gateway (main/flash_data/terminal/script.js).
use wireless_gateway.Prelude.{
  ℕ, ◌≡◌, true, List, [], ◌∷◌, ◌++◌, some, arith, get_elem?, All, ◌≤◌, length,
}
use wireless_gateway.Base64.{btoa}
use wireless_gateway.Base64.Decode.{atob}
use wireless_gateway.Base64.RoundTrip.{atob-btoa}
use wireless_gateway.Terminal.Json.{str}
use wireless_gateway.Terminal.Utf8.{IsCodeUnit, scalars, encode}
use wireless_gateway.Terminal.Utf8.Scalars.{encode-IsByte}
use wireless_gateway.Terminal.Utf8.RoundTrip.{decode_utf8, decode_utf8-encode}
use wireless_gateway.Terminal.World.{Packet, World, opened, done, send, writeln}
use wireless_gateway.Terminal.Traffic.{tx_command, handle_user_input, send_break_signal, break_sent}

-- The page takes itself for connected, by a socket that is open.
pub record Online (id : ℕ) (w : World) : Type 0 where
  pub connected : w.this.is_connected ≡ true
  pub socket : w.this.socket ≡ some id
  pub ready : get_elem? w.browser.sockets id ≡ some opened

abbrev pub with_sent : ℕ → Packet → World → World
with_sent id p w = record w {
  browser = record (w.browser) { sent = w.browser.sent ++ (id, p) ∷ [] };
}

pub send-Online :
    (id : ℕ) (p : Packet) (w : World) → Online id w → send p w ≡ done (with_sent id p w)
unfolding send
send-Online id p w online = ground (arith, online.socket, online.ready)

pub handle_user_input-sends :
    (id : ℕ) (text : List ℕ) (w : World)
    → Online id w
    → length (encode text) ≤ w.browser.max_arguments
    → handle_user_input text w
      ≡ done (with_sent id (tx_command w.this.tx_sid (str (btoa (encode text)))) w)
unfolding handle_user_input
handle_user_input-sends id text w online fits = ground (
  arith,
  online.connected,
  online.socket,
  send-Online id (tx_command w.this.tx_sid (str (btoa (encode text)))) w online,
)

-- A JavaScript string that is typed while the page is online, and whose UTF-8 bytes fit the arguments of
-- one call, is sent at once, as one command for the UART under the page's session id, and nothing else
-- changes. The command's argument decodes, from Base64, to bytes that stand in UTF-8 for the text's code
-- points, with U+FFFD for every surrogate that has no partner.
pub handle_user_input-Online :
    (id : ℕ) (text : List ℕ) (w : World)
    → Online id w
    → All IsCodeUnit text
    → length (encode text) ≤ w.browser.max_arguments
    → (handle_user_input text w
        ≡ done (with_sent id (tx_command w.this.tx_sid (str (btoa (encode text)))) w))
      × (atob (btoa (encode text)) ≡ some (encode text))
      × (decode_utf8 (encode text) ≡ scalars text)
handle_user_input-Online id text w online units fits = (
  handle_user_input-sends id text w online fits,
  atob-btoa (encode text) (encode-IsByte text units),
  decode_utf8-encode text,
)

-- The Break key of an online page sends the byte 3, Base64-encoded, and shows that it did.
pub send_break_signal-Online :
    (id : ℕ) (w : World)
    → Online id w
    → (send_break_signal w
        ≡ writeln break_sent (with_sent id (tx_command w.this.tx_sid (str (btoa (3 ∷ [])))) w))
      × (atob (btoa (3 ∷ [])) ≡ some (3 ∷ []))
unfolding send_break_signal
send_break_signal-Online id w online = (
  ground (
    arith,
    online.connected,
    online.socket,
    send-Online id (tx_command w.this.tx_sid (str (btoa (3 ∷ [])))) w online,
  ),
  atob-btoa (3 ∷ []) (omega arith, tt),
)
