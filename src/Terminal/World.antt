-- ===== src/Terminal/World.antt =====
-- The state of the web terminal (main/flash_data/terminal/script.js): the fields of the class
-- `ESP32Terminal`, the page that it shows, and the browser that it calls.
--
-- The browser's WebSocket and timers follow the HTML standard. A socket is named by its place in
-- `sockets`, and a timer by its number. An action is a run to the end of one handler: it gives the
-- next state, and the exception that left it, if one did.
use wireless_gateway.Prelude.{
  ℕ, suc, ◌+◌, ◌%◌, Bool, true, false, List, [], ◌∷◌, ◌++◌, Option, none, some, String, Text, ◌==◌,
  if◌then◌else◌, get_elem?, set,
}
use wireless_gateway.Terminal.Json.{Json}

pub data ReadyState : Type 0 where
  connecting opened closing closed : ReadyState

-- The commands that `JSON.stringify` is given. A key whose value is undefined is not printed.
pub record Packet : Type 0 where
  pub fid : Text
  pub sid : Option ℕ
  pub flags : ℕ
  pub arg : Option Json

pub data Exn : Type 0 where
  invalid_state type_error syntax_error invalid_character range_error : Exn
  refused : String → Exn

-- What the terminal widget is asked to show. `decoded` is the text that `TextDecoder` reads from
-- the bytes.
pub data Output : Type 0 where
  line : String → Output
  write : String → Output
  decoded : List ℕ → Output
  cleared : Output

pub record Fields : Type 0 where
  pub socket : Option ℕ
  pub is_connected : Bool
  pub is_registered : Bool
  pub packet_count : ℕ
  pub echo_enabled : Bool
  pub subscription_sid : Option ℕ
  pub tx_sid : Option ℕ
  pub resubscribe_timer : Option ℕ

pub record Page : Type 0 where
  pub url : String
  pub status_text : String
  pub status_color : String
  pub status_class : String
  pub connection_text : String
  pub connection_class : String
  pub connect_label : String
  pub connect_background : String
  pub echo_label : String
  pub echo_background : String
  pub packet_text : Text
  pub last_activity : String

-- `random k` gives the k-th `Math.random() * 0xffff`, rounded down, and `max_arguments` how many
-- arguments the engine lets a call spread.
pub record Browser : Type 0 where
  pub sockets : List ReadyState
  pub sent : List (ℕ × Packet)
  pub timers : List ℕ
  pub next_timer : ℕ
  pub screen : List Output
  pub drawn : ℕ
  pub random : ℕ → ℕ
  pub clock : String
  pub refuses : String → Option String
  pub max_arguments : ℕ
  pub message_of : Exn → String

pub record World : Type 0 where
  pub this : Fields
  pub page : Page
  pub browser : Browser

pub data Outcome : Type 0 where
  done : World → Outcome
  thrown : Exn → World → Outcome

abbrev pub Action : Type 0
Action = World → Outcome

abbrev pub after : Outcome → World
after (done w) = w
after (thrown e w) = w

-- The outcome is no exception.
abbrev pub is_done : Outcome → Bool
is_done (done w) = true
is_done (thrown e w) = false

abbrev pub skip : Action
skip w = done w

abbrev pub and_then : Outcome → Action → Outcome
and_then (done w) k = k w
and_then (thrown e w) k = thrown e w

infixl 5 ◌>>◌
abbrev pub ◌>>◌ : Action → Action → Action
◌>>◌ m k w = and_then (m w) k

abbrev pub or_else : Outcome → (Exn → Action) → Outcome
or_else (done w) handler = done w
or_else (thrown e w) handler = handler e w

-- try { m } catch (error) { handler(error) }
abbrev pub attempt : Action → (Exn → Action) → Action
attempt m handler w = or_else (m w) handler

abbrev pub modify : (Fields → Fields) → Action
modify f w = done (record w { this = f w.this })

abbrev pub on_page : (Page → Page) → Action
on_page f w = done (record w { page = f w.page })

abbrev pub on_browser : (Browser → Browser) → Action
on_browser f w = done (record w { browser = f w.browser })

abbrev pub show : Output → Action
show o = on_browser (λ b. record b { screen = b.screen ++ o ∷ [] })

abbrev pub writeln : String → Action
writeln s = show (line s)

-- socket.send: an error while connecting, and dropped once the socket closes.
abbrev pub transmit : ℕ → Packet → Option ReadyState → Action
transmit id p none w = done w
transmit id p (some connecting) w = thrown invalid_state w
transmit id p (some opened) w =
    done (record w { browser = record (w.browser) { sent = w.browser.sent ++ (id, p) ∷ [] } })
transmit id p (some closing) w = done w
transmit id p (some closed) w = done w

-- `this.socket.send(JSON.stringify(p))`, on `null` a TypeError.
unfoldable pub send : Packet → Action
send p w = elim w.this.socket [
  | none ↦ thrown type_error w
  | some id ↦ transmit id p (get_elem? w.browser.sockets id) w
]

abbrev pub closing_state : ReadyState → ReadyState
closing_state connecting = closing
closing_state opened = closing
closing_state closing = closing
closing_state closed = closed

abbrev pub update : List ReadyState → ℕ → (ReadyState → ReadyState) → List ReadyState
update ss id f = elim (get_elem? ss id) [ none ↦ ss | some s ↦ set ss id (f s) ]

-- socket.close()
unfoldable pub close : ℕ → Action
close id = on_browser (λ b. record b { sockets = update b.sockets id closing_state })

abbrev pub remove : ℕ → List ℕ → List ℕ
remove t [] = []
remove t (s ∷ ss) = let rest = remove t ss in if s == t then rest else s ∷ rest

-- clearTimeout(t), which ignores `undefined` and a timer that has fired.
unfoldable pub clear_timeout : Option ℕ → Action
clear_timeout none = skip
clear_timeout (some t) = on_browser (λ b. record b { timers = remove t b.timers })

-- this.resubscribeTimer = setTimeout(…, 3000)
unfoldable pub set_resubscribe : Action
set_resubscribe w = done (record w {
  this = record (w.this) { resubscribe_timer = some w.browser.next_timer };
  browser = record (w.browser) {
    timers = w.browser.timers ++ w.browser.next_timer ∷ [];
    next_timer = suc w.browser.next_timer;
  };
})

-- Math.floor(Math.random() * 0xffff) + 1
abbrev pub random_sid : Browser → ℕ → ℕ
random_sid b k = b.random k % 0xffff + 1
