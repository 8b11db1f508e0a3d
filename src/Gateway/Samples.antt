-- ===== src/Gateway/Samples.antt =====
-- Concrete states and inputs of the server, for the tests.
use wireless_gateway.Prelude.{
  ℕ, true, false, List, [], ◌∷◌, Option, none, some, Text, codes, text_eq, if◌then◌else◌,
}
use wireless_gateway.Prelude.Int.{pos}
use wireless_gateway.Json.{Kind, number, string, other, CJson}
use wireless_gateway.Gateway.State.{break_call, Session, Call, Msg, Server}
use wireless_gateway.Gateway.Intake.{text_type}
use wireless_gateway.Gateway.Forward.{Pass}
use wireless_gateway.Gateway.Invariant.Run.{
  Event, connects, disconnects, frame, routes, serves, forwards, responds, boot,
}

-- A JSON reader that knows one text, and gives the members of its object.
pub data Node : Type 0 where
  leaf : Kind → Node
  object : List (Text × Kind) → Node

abbrev pub get_item : List (Text × Kind) → Text → Option Node
get_item [] key = none
get_item ((k, v) ∷ ms) key = if text_eq k key then some (leaf v) else get_item ms key

abbrev pub item_of : Node → Text → Option Node
item_of (leaf k) key = none
item_of (object ms) key = get_item ms key

abbrev pub kind_of : Node → Kind
kind_of (leaf k) = k
kind_of (object ms) = other

abbrev pub print_node : Node → Text
print_node n = codes "{}"

abbrev pub registration_text : Text
registration_text = codes "{\"FID\":\"0x00001021\",\"SID\":42,\"FLAGS\":4}"

abbrev pub registration_node : Node
registration_node = object (
    (codes "FID", string (codes "0x00001021"))
    ∷ (codes "SID", number (pos 42))
    ∷ (codes "FLAGS", number (pos 4))
    ∷ [])

abbrev pub parse_text : Text → Option Node
parse_text t = if text_eq t registration_text then some registration_node else none

abbrev pub one_text : CJson
one_text = record {
  Node = Node;
  parse = parse_text;
  item = item_of;
  kind = kind_of;
  print = print_node;
}

abbrev pub same_ticks : ℕ → ℕ
same_ticks n = n

abbrev pub a_message : ℕ → Text → Msg
a_message id payload = record { fid = 0x1021; id = id; payload = some payload }

abbrev pub events : List Event
events =
    routes true 0x1021 7
    ∷ connects 3 0
    ∷ frame 3 text_type registration_text 10
    ∷ forwards 20
    ∷ responds 30 (a_message 42 (codes "\"aGk=\"") ∷ [])
    ∷ serves 40
    ∷ disconnects 3
    ∷ serves 50
    ∷ []

abbrev pub a_call : ℕ → ℕ → ℕ → Call
a_call fd id flags = record {
  session = some fd;
  req = none;
  id = id;
  handler = none;
  fid = 0x1021;
  pending = 1;
  flags = flags;
  poll_interval = 5;
  next_poll = 0;
}

abbrev pub a_session : ℕ → Session
a_session fd = record { fd = fd; alive_ts = 0; ping_ts = 0 }

abbrev pub a_server : List Call → List Call → Server
a_server calls waiting = record (boot [] [] []) {
  sessions = a_session 3 ∷ a_session 4 ∷ [];
  handlers = (0x1021, 9) ∷ [];
  fid_queues = (0x1021, 7) ∷ [];
  calls = calls;
  waiting = waiting;
}

abbrev pub busy_server : Server
busy_server = a_server [] (a_call 3 41 4 ∷ a_call 4 42 4 ∷ [])

abbrev pub a_pass : List Call → Server → Pass
a_pass behind server = record { before = a_call 3 42 4 ∷ []; behind = behind; server = server }

abbrev pub no_queues : Server
no_queues = record (a_server [] []) { fid_queues = [] }

abbrev pub served_server : Server
served_server =
    a_server (a_call 3 41 4 ∷ break_call (a_call 4 42 4) ∷ []) (break_call (a_call 3 43 4) ∷ [])

abbrev pub full_server : Server
full_server = record (a_server [] []) { posts = false ∷ [] }

abbrev pub one_call_server : Server
one_call_server = a_server (a_call 4 42 5 ∷ []) (a_call 3 41 4 ∷ [])

abbrev pub starved_server : Server
starved_server = record (a_server [] []) { mallocs = false ∷ [] }
