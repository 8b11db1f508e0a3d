-- ===== src/Terminal/Samples.antt =====
-- Concrete states and inputs of the web terminal, for the tests.
use wireless_gateway.Prelude.{ℕ, true, false, List, [], ◌∷◌, Option, none, some, String, codes}
use wireless_gateway.Terminal.Json.{Json, str, obj, end, member}
use wireless_gateway.Terminal.World.{connecting, opened, closing, Exn, World, Fields, Page, Browser}
use wireless_gateway.Terminal.Events.{
  Event, click_connect, click_echo, input, press_key, key_c, socket_opened, socket_message,
  socket_closed, new_fields,
}

abbrev pub blank_page : Page
blank_page = record {
  url = "ws://esp.local/ws";
  status_text = "";
  status_color = "";
  status_class = "";
  connection_text = "";
  connection_class = "";
  connect_label = "";
  connect_background = "";
  echo_label = "";
  echo_background = "";
  packet_text = [];
  last_activity = "";
}

abbrev pub accepts_all : String → Option String
accepts_all url = none

abbrev pub no_message : Exn → String
no_message e = "error"

abbrev pub always : ℕ → ℕ
always k = 41

abbrev pub new_browser : Browser
new_browser = record {
  sockets = [];
  sent = [];
  timers = [];
  next_timer = 1;
  screen = [];
  drawn = 0;
  random = always;
  clock = "12:00:00";
  refuses = accepts_all;
  max_arguments = 65535;
  message_of = no_message;
}

abbrev pub a_world : Fields → Browser → World
a_world this browser = record { this = this; page = blank_page; browser = browser }

abbrev pub online_fields : Fields
online_fields = record new_fields {
  socket = some 0;
  is_connected = true;
  subscription_sid = some 42;
  tx_sid = some 42;
  resubscribe_timer = some 1;
}

-- Registered, or still waiting for the confirmation.
abbrev pub registered_world : World
registered_world =
    a_world (record online_fields { is_registered = true; echo_enabled = true })
      (record new_browser { sockets = opened ∷ [] })

abbrev pub waiting_world : World
waiting_world =
    a_world online_fields
      (record new_browser { sockets = opened ∷ []; timers = 1 ∷ []; next_timer = 2 })

abbrev pub connecting_world : World
connecting_world =
    a_world (record new_fields { socket = some 0 })
      (record new_browser { sockets = connecting ∷ [] })

-- A reconnection before the first socket has closed.
abbrev pub reconnected_world : World
reconnected_world =
    a_world (record online_fields { socket = some 1 })
      (record new_browser { sockets = closing ∷ opened ∷ [] })

abbrev pub data_argument : Json
data_argument = str (codes "aGk=")

abbrev pub uart_packet : Json → Json
uart_packet arg =
    obj (member (codes "FID") (str (codes "0x00001021")) (member (codes "ARG") arg end))

abbrev pub confirmation : Json
confirmation = obj (member (codes "STA") (str (codes "0x00000005")) end)

abbrev pub a_session : List Event
a_session =
    click_connect
    ∷ socket_opened 0
    ∷ socket_message 0 (some (uart_packet confirmation))
    ∷ click_echo
    ∷ socket_message 0 (some (uart_packet data_argument))
    ∷ input (104 ∷ 105 ∷ [])
    ∷ press_key true false key_c
    ∷ click_connect
    ∷ socket_closed 0
    ∷ []

-- Connect was pressed twice, and no socket has opened yet.
abbrev pub twice_world : World
twice_world =
    a_world (record new_fields { socket = some 1 })
      (record new_browser { sockets = connecting ∷ connecting ∷ [] })

abbrev pub narrow_world : World
narrow_world =
    a_world online_fields (record new_browser { sockets = opened ∷ []; max_arguments = 1 })
