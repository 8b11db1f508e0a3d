-- ===== src/Terminal/Invariant.antt =====
-- What holds of the terminal after any events: the session ids it uses, and the commands it sends.
pub mod Handlers
pub mod Messages
pub mod Run
use wireless_gateway.Prelude.{
  ℕ, suc, ◌+◌, ◌%◌, ◌≤◌, ◌<◌, ◌≡◌, ◌≢◌, refl, Bool, true, false, not, ◌&&◌, ◌||◌, List, [], ◌∷◌,
  ◌++◌, Option, none, some, String, arith, if◌then◌else◌, is_some, All, All-append, get_elem?,
  Option-cases, Bool-cases, ◌⊎◌, inl, inr,
}
use wireless_gateway.Terminal.Json.{Json}
use wireless_gateway.Terminal.World.{
  ReadyState, connecting, opened, closing, closed, Packet, Fields, Page, Browser, World, Action,
  Output, Outcome, done, thrown, Exn, and_then, or_else, after, ◌>>◌, attempt, on_page, on_browser,
  show, send, transmit, random_sid,
}
use wireless_gateway.Terminal.Session.{register_command, unsubscribe_command}
use wireless_gateway.Terminal.Traffic.{tx_command}

-- Session ids are drawn from 1 to 0xffff.
abbrev pub IsSid : Option ℕ → Type 0
IsSid none = Unit
IsSid (some s) = (1 ≤ s) × (s ≤ 0xffff)

-- The commands that the gateway is sent: a registration, and bytes for the UART.
pub data IsCommand (p : Packet) : Type 0 where
  registers : (s : ℕ) → (1 ≤ s) × (s ≤ 0xffff) → p ≡ register_command (some s) → IsCommand p
  transmits :
      (s : ℕ) (arg : Json) → (1 ≤ s) × (s ≤ 0xffff) → p ≡ tx_command (some s) arg → IsCommand p

abbrev pub SentCommand : ℕ × Packet → Type 0
SentCommand s = IsCommand s.1

pub record Inv (w : World) : Type 0 where
  pub subscription_range : IsSid w.this.subscription_sid
  pub tx_range : IsSid w.this.tx_sid
  pub tx_drawn : w.this.is_connected ≡ true → is_some w.this.tx_sid ≡ true
  pub commands : All SentCommand w.browser.sent

abbrev pub Keeps : Action → Type 0
Keeps m = (w : World) → Inv w → Inv (after (m w))

and_then-Inv : (o : Outcome) (k : Action) → Inv (after o) → Keeps k → Inv (after (and_then o k))
and_then-Inv (done w) k v hk = hk w v
and_then-Inv (thrown e w) k v hk = v

or_else-Inv :
    (o : Outcome) (h : Exn → Action)
    → Inv (after o)
    → ((e : Exn) → Keeps (h e))
    → Inv (after (or_else o h))
or_else-Inv (done w) h v hk = v
or_else-Inv (thrown e w) h v hk = hk e w v

pub Keeps-seq : (m k : Action) → Keeps m → Keeps k → Keeps (m >> k)
Keeps-seq m k hm hk w v = and_then-Inv (m w) k (hm w v) hk

pub Keeps-attempt :
    (m : Action) (h : Exn → Action) → Keeps m → ((e : Exn) → Keeps (h e)) → Keeps (attempt m h)
Keeps-attempt m h hm hh w v = or_else-Inv (m w) h (hm w v) hh

pub on_page-Keeps : (f : Page → Page) → Keeps (on_page f)
on_page-Keeps f w v = record {
  subscription_range = v.subscription_range;
  tx_range = v.tx_range;
  tx_drawn = v.tx_drawn;
  commands = v.commands;
}

-- A change of the browser that sends nothing.
pub on_browser-Keeps :
    (f : Browser → Browser) → ((b : Browser) → (f b).sent ≡ b.sent) → Keeps (on_browser f)
on_browser-Keeps f same w v = record {
  subscription_range = v.subscription_range;
  tx_range = v.tx_range;
  tx_drawn = v.tx_drawn;
  commands = rw (same w.browser) v.commands;
}

pub show-Keeps : (o : Output) → Keeps (show o)
show-Keeps o = on_browser-Keeps _ (λ b. refl)

transmit-Inv :
    (id : ℕ) (p : Packet) (s : Option ReadyState) (w : World)
    → Inv w
    → IsCommand p
    → Inv (after (transmit id p s w))
transmit-Inv id p none w v c = v
transmit-Inv id p (some connecting) w v c = v
transmit-Inv id p (some opened) w v c = record {
  subscription_range = v.subscription_range;
  tx_range = v.tx_range;
  tx_drawn = v.tx_drawn;
  commands = All-append SentCommand w.browser.sent ((id, p) ∷ []) v.commands (c, tt);
}
transmit-Inv id p (some closing) w v c = v
transmit-Inv id p (some closed) w v c = v

pub send-Inv : (p : Packet) (w : World) → Inv w → IsCommand p → Inv (after (send p w))
unfolding send
send-Inv p w v c = elim (Option-cases w.this.socket) [
  | inl e ↦ rw (e, send) v
  | inr (id, e) ↦ rw (e, send) (transmit-Inv id p (get_elem? w.browser.sockets id) w v c)
]

-- A command under a drawn id.
transmits_drawn :
    (sid : Option ℕ) (arg : Json) → IsSid sid → is_some sid ≡ true → IsCommand (tx_command sid arg)
transmits_drawn none arg h e = cc
transmits_drawn (some s) arg h e = transmits s arg h refl

pub send_tx-Inv :
    (w : World) (arg : Json)
    → Inv w
    → w.this.is_connected ≡ true
    → Inv (after (send (tx_command w.this.tx_sid arg) w))
send_tx-Inv w arg v e = send-Inv _ w v (transmits_drawn w.this.tx_sid arg v.tx_range (v.tx_drawn e))
