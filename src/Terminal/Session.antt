-- ===== src/Terminal/Session.antt =====
-- Connecting, registering and disconnecting (script.js).
use Prim.Native.String.{◌++◌ as concat}
use wireless_gateway.Prelude.{
  ℕ, ◌+◌, Bool, true, false, not, ◌&&◌, [], ◌∷◌, ◌++◌, Option, none, some, String, Text, codes,
  if◌then◌else◌, is_some, length,
}
use wireless_gateway.Terminal.World.{
  connecting, Packet, refused, done, thrown, Action, skip, ◌>>◌, attempt, modify, on_page, writeln,
  send, close, clear_timeout, set_resubscribe, random_sid,
}
use wireless_gateway.Terminal.View.{
  green, red, yellow, update_status, update_connection_status, show_error,
}

abbrev pub rx_fid : Text
rx_fid = codes "0x00001021"

abbrev pub is_empty : String → Bool
is_empty String.[] = true
is_empty (String.◌∷◌ c s) = false

-- `this.socket = new WebSocket(url)`; a URL that the browser refuses is a SyntaxError.
unfoldable pub new_socket : Action
new_socket w = elim (w.browser.refuses w.page.url) [
  | some message ↦ thrown (refused message) w
  | none ↦ done (record w {
    this = record (w.this) { socket = some (length w.browser.sockets) };
    browser = record (w.browser) { sockets = w.browser.sockets ++ connecting ∷ [] };
  })
]

unfoldable pub connect : Action
connect w =
    if is_empty w.page.url
    then show_error "Введите URL WebSocket сервера" w
    else (do
      update_status "Подключение..." yellow
      attempt new_socket
          (λ error v. show_error (concat "Ошибка подключения: " (v.browser.message_of error)) v))
        w

-- Both session ids are drawn before anything is sent.
unfoldable pub draw_sids : Action
draw_sids w = done (record w {
  this = record (w.this) {
    subscription_sid = some (random_sid w.browser w.browser.drawn);
    tx_sid = some (random_sid w.browser (w.browser.drawn + 1));
  };
  browser = record (w.browser) { drawn = w.browser.drawn + 2 };
})

abbrev pub register_command : Option ℕ → Packet
register_command sid = record { fid = rx_fid; sid = sid; flags = 4; arg = none }

unfoldable pub register_client : Action
unfolding draw_sids
register_client = do
  draw_sids
  (λ w. send (register_command w.this.subscription_sid) w)
  writeln "\u{1b}[32m✓ Регистрация отправлена\u{1b}[0m"
  set_resubscribe

-- The callback of the timer that `register_client` sets.
unfoldable pub on_resubscribe_timer : Action
on_resubscribe_timer w =
    if not w.this.is_registered && w.this.is_connected
    then (do writeln "\u{1b}[33m[Повтор регистрации...]\u{1b}[0m"; register_client) w
    else skip w

unfoldable pub on_open : Action
on_open = do
  modify (λ t. record t { is_connected = true })
  update_status "Подключено" green
  update_connection_status true
  register_client
  writeln "\u{1b}[33mОтправка регистрационной команды...\u{1b}[0m"

unfoldable pub on_close : Action
on_close = do
  modify (λ t. record t { is_connected = false })
  update_status "Отключено" red
  update_connection_status false
  writeln "\u{1b}[1;31m✗ Соединение закрыто\u{1b}[0m"

unfoldable pub on_error : String → Action
on_error message = do show_error (concat "Ошибка WebSocket: " message); update_status "Ошибка" red

abbrev pub unsubscribe_command : Option ℕ → Packet
unsubscribe_command sid = record { fid = rx_fid; sid = sid; flags = 8; arg = none }

unfoldable pub unsubscribe : Action
unsubscribe w =
    if is_some w.this.socket && w.this.is_registered && is_some w.this.subscription_sid
    then (do
      send (unsubscribe_command w.this.subscription_sid)
      modify (λ t. record t { is_registered = false; subscription_sid = none }))
        w
    else skip w

-- if (this.socket) { this.socket.close(); this.socket = null; }
unfoldable pub drop_socket : Action
drop_socket w = elim w.this.socket [
  | none ↦ done w
  | some id ↦ (do close id; modify (λ t. record t { socket = none })) w
]

unfoldable pub disconnect : Action
disconnect = do
  (λ w. clear_timeout w.this.resubscribe_timer w)
  drop_socket
  modify (λ t. record t {
    is_connected = false;
    is_registered = false;
    subscription_sid = none;
    echo_enabled = false;
  })
  on_page (λ p. record p { echo_label = "Echo: OFF"; echo_background = "" })
  update_status "Отключено" red
  update_connection_status false
