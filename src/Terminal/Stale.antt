-- ===== src/Terminal/Stale.antt =====
-- Events of a socket that is not the page's any more (main/flash_data/terminal/script.js): the handlers
-- do not look at which socket they belong to.
use wireless_gateway.Prelude.{
  ℕ, ◌≡◌, ◌≢◌, refl, true, false, List, [], ◌∷◌, some, arith, get_elem?, set, zero, suc, ◌∙◌,
}
use wireless_gateway.Terminal.World.{
  ReadyState, connecting, opened, send, thrown, invalid_state, closed, Packet, random_sid, World,
  after, update,
}
use wireless_gateway.Terminal.View.{update_status, update_connection_status, show_error}
use wireless_gateway.Terminal.Session.{on_close, on_open, register_client, register_command}
use wireless_gateway.Terminal.Traffic.{handle_user_input}
use wireless_gateway.Terminal.Events.{
  socket_opened, is_connecting, socket_closed, dispatch, is_live, state_of,
}
use wireless_gateway.Terminal.Typing.{Online}
use wireless_gateway.Terminal.Subscription.{drawn_sids, opening}

get_elem?-set_other :
    (ss : List ReadyState) (i j : ℕ) (s : ReadyState)
    → i ≢ j
    → get_elem? (set ss i s) j ≡ get_elem? ss j
get_elem?-set_other [] i j s h = refl
get_elem?-set_other (x ∷ ss) zero zero s h = absurd (h refl)
get_elem?-set_other (x ∷ ss) zero (suc j) s h = refl
get_elem?-set_other (x ∷ ss) (suc i) zero s h = refl
get_elem?-set_other (x ∷ ss) (suc i) (suc j) s h =
    get_elem?-set_other ss i j s (λ e. h (omega (arith, e)))

pub update-other :
    (ss : List ReadyState) (i j : ℕ) (s : ReadyState)
    → i ≢ j
    → get_elem? (update ss i (λ _. s)) j ≡ get_elem? ss j
update-other ss i j s h = ground (arith, get_elem?-set_other ss i j s)

-- The page after a socket's close event.
abbrev pub after_close : ℕ → World → World
after_close old w = after (dispatch (socket_closed old) w)

close_event-fields :
    (old : ℕ) (w : World)
    → is_live (state_of w old) ≡ true
    → let v = after_close old w in
      (v.this.is_connected ≡ false)
      × (v.this.socket ≡ w.this.socket)
      × (v.browser.sockets ≡ update w.browser.sockets old (λ _. closed))
      × (v.browser.sent ≡ w.browser.sent)
unfolding dispatch on_close update_status update_connection_status
close_event-fields old w live = rw live (refl, refl, refl, refl)

handle_user_input-refused :
    (text : List ℕ) (w : World)
    → w.this.is_connected ≡ false
    → handle_user_input text w ≡ show_error "Не подключено к серверу" w
unfolding handle_user_input
handle_user_input-refused text w h = ground arith

-- Where the page is online by a new socket while the one before it has not closed yet, the close event of
-- the old one makes the page take itself for disconnected, though its socket is open, and what is typed
-- is refused.
pub socket_closed-Online :
    (old id : ℕ) (text : List ℕ) (w : World)
    → old ≢ id
    → is_live (state_of w old) ≡ true
    → Online id w
    → let v = after_close old w in
      (v.this.is_connected ≡ false)
      × (v.this.socket ≡ some id)
      × (state_of v id ≡ state_of w id)
      × (handle_user_input text v ≡ show_error "Не подключено к серверу" v)
socket_closed-Online old id text w differ live online =
    let (offline, socket, sockets, sent) = close_event-fields old w live in
    (
      offline,
      socket ∙ online.socket,
      rw sockets (update-other w.browser.sockets old id closed differ),
      handle_user_input-refused text (after_close old w) offline,
    )

send-connecting :
    (id : ℕ) (p : Packet) (w : World)
    → w.this.socket ≡ some id
    → state_of w id ≡ some connecting
    → send p w ≡ thrown invalid_state w
unfolding send
send-connecting id p w socket state = ground arith

register_client-thrown :
    (id : ℕ) (w : World)
    → w.this.socket ≡ some id
    → state_of w id ≡ some connecting
    → register_client w ≡ thrown invalid_state (drawn_sids w)
unfolding register_client
register_client-thrown id w socket state =
    rw
      (send-connecting id (register_command (some (random_sid w.browser w.browser.drawn)))
        (drawn_sids w) socket state)
      refl

-- Where an earlier socket opens while the page's own socket is still connecting, as after a second
-- Connect, the page takes itself for connected, but its registration is not sent, no retry is set, and
-- the handler ends with an exception.
pub socket_opened-thrown :
    (old id : ℕ) (w : World)
    → old ≢ id
    → state_of w old ≡ some connecting
    → w.this.socket ≡ some id
    → state_of w id ≡ some connecting
    → let o = dispatch (socket_opened old) w in
      (o ≡ thrown invalid_state (after o))
      × ((after o).this.is_connected ≡ true)
      × ((after o).browser.sent ≡ w.browser.sent)
      × ((after o).browser.timers ≡ w.browser.timers)
unfolding dispatch on_open update_status update_connection_status
socket_opened-thrown old id w differ waiting socket state =
    rw (opens, register_client-thrown id (opening old w) socket still) (refl, refl, refl, refl)
  where
    opens : is_connecting (state_of w old) ≡ true
    opens = rw waiting refl

    still : state_of (opening old w) id ≡ some connecting
    still = update-other w.browser.sockets old id opened differ ∙ state
