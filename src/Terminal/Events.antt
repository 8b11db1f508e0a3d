-- ===== src/Terminal/Events.antt =====
-- The page and the class at the start (`constructor`, `initTerminal`), and the events that the
-- handlers of `bindEvents` and of the sockets answer.
--
-- `dispatch` runs one event to its end. An event that the browser cannot deliver in a state, such as
-- a message from a socket that is not open, does nothing.
use wireless_gateway.Prelude.{
  ℕ, Bool, true, false, List, [], ◌∷◌, Option, none, some, String, if◌then◌else◌, ◌==◌, ◌||◌,
  get_elem?,
}
use wireless_gateway.Terminal.Json.{Json}
use wireless_gateway.Terminal.World.{
  ReadyState, connecting, opened, closing, closed, Fields, Page, Browser, World, Action, after,
  cleared, skip, ◌>>◌, on_page, on_browser, show, writeln, update, remove,
}
use wireless_gateway.Terminal.View.{toggle_echo}
use wireless_gateway.Terminal.Session.{
  connect, disconnect, on_open, on_close, on_error, on_resubscribe_timer,
}
use wireless_gateway.Terminal.Traffic.{
  handle_web_socket_message, handle_user_input, send_break_signal,
}

unfoldable pub init_terminal : Action
init_terminal = do
  writeln "\u{1b}[1;36mESP32 Web Terminal v1.1\u{1b}[0m"
  writeln "\u{1b}[33mEnter WebSocket URL and click Connect\u{1b}[0m"

abbrev pub new_fields : Fields
new_fields = record {
  socket = none;
  is_connected = false;
  is_registered = false;
  packet_count = 0;
  echo_enabled = false;
  subscription_sid = none;
  tx_sid = none;
  resubscribe_timer = none;
}

-- `constructor`, in a page that no script has used yet.
unfoldable pub start : Page → Browser → World
unfolding init_terminal
start page browser =
    after (init_terminal (record { this = new_fields; page = page; browser = browser }))

pub data Key : Type 0 where
  key_c key_l other_key : Key

pub data Event : Type 0 where
  click_connect click_clear click_echo press_enter : Event
  edit_url : String → Event
  press_key : Bool → Bool → Key → Event
  input : List ℕ → Event
  socket_opened : ℕ → Event
  socket_message : ℕ → Option Json → Event
  socket_closed : ℕ → Event
  socket_failed : ℕ → String → Event
  timer_fired : ℕ → Event

-- The custom key handler: Ctrl, whether text is selected, and the key.
unfoldable pub on_key : Bool → Bool → Key → Action
on_key true true key_c = skip
on_key true false key_c = send_break_signal
on_key true selected key_l = show cleared
on_key ctrl selected key = skip

-- The handler's result: whether the terminal goes on to treat the key as input.
unfoldable pub key_passes : Bool → Bool → Key → Bool
key_passes true selected key_c = false
key_passes true selected key_l = false
key_passes ctrl selected key = true

unfoldable pub on_connect_button : Action
on_connect_button w = if w.this.is_connected then disconnect w else connect w

unfoldable pub on_enter : Action
on_enter w = if w.this.is_connected then skip w else connect w

abbrev pub is_connecting : Option ReadyState → Bool
is_connecting none = false
is_connecting (some connecting) = true
is_connecting (some opened) = false
is_connecting (some closing) = false
is_connecting (some closed) = false

abbrev pub is_opened : Option ReadyState → Bool
is_opened none = false
is_opened (some connecting) = false
is_opened (some opened) = true
is_opened (some closing) = false
is_opened (some closed) = false

-- A socket that exists and has not closed yet.
abbrev pub is_live : Option ReadyState → Bool
is_live none = false
is_live (some connecting) = true
is_live (some opened) = true
is_live (some closing) = true
is_live (some closed) = false

abbrev pub state_of : World → ℕ → Option ReadyState
state_of w id = get_elem? w.browser.sockets id

abbrev pub has_timer : ℕ → List ℕ → Bool
has_timer t [] = false
has_timer t (s ∷ ss) = s == t || has_timer t ss

abbrev pub mark : ℕ → ReadyState → Action
mark id s = on_browser (λ b. record b { sockets = update b.sockets id (λ _. s) })

abbrev pub expire : ℕ → Action
expire t = on_browser (λ b. record b { timers = remove t b.timers })

unfoldable pub dispatch : Event → Action
dispatch click_connect w = on_connect_button w
dispatch click_clear w = show cleared w
dispatch click_echo w = toggle_echo w
dispatch press_enter w = on_enter w
dispatch (edit_url url) w = on_page (λ p. record p { url = url }) w
dispatch (press_key ctrl selected key) w = on_key ctrl selected key w
dispatch (input text) w = handle_user_input text w
dispatch (socket_opened id) w =
    if is_connecting (state_of w id) then (do mark id opened; on_open) w else skip w
dispatch (socket_message id message) w =
    if is_opened (state_of w id) then handle_web_socket_message message w else skip w
dispatch (socket_closed id) w =
    if is_live (state_of w id) then (do mark id closed; on_close) w else skip w
dispatch (socket_failed id message) w =
    if is_live (state_of w id) then on_error message w else skip w
dispatch (timer_fired t) w =
    if has_timer t w.browser.timers
    then (do on_browser (λ b. record b { timers = remove t b.timers }); on_resubscribe_timer) w
    else skip w

-- An exception that leaves a handler is reported on the console, and the page goes on.
unfoldable pub run : List Event → World → World
run [] w = w
run (e ∷ es) w = run es (after (dispatch e w))
