-- ===== src/Terminal/Invariant/Handlers.antt =====
-- The handlers of script.js one by one, against the invariant.
use wireless_gateway.Prelude.{
  ℕ, refl, Bool, true, false, not, ◌&&◌, ◌||◌, List, [], ◌∷◌, Option, none, some, String, arith,
  is_some, All, Bool-cases, inl, inr, ltb, length,
}
use wireless_gateway.Base64.{btoa}
use wireless_gateway.Terminal.Json.{str}
use wireless_gateway.Terminal.Utf8.{encode}
use wireless_gateway.Terminal.World.{
  World, after, skip, writeln, send, close, clear_timeout, set_resubscribe, line,
}
use wireless_gateway.Terminal.View.{
  Color, update_status, update_connection_status, show_error, toggle_echo,
}
use wireless_gateway.Terminal.Session.{
  new_socket, connect, draw_sids, register_command, register_client, on_resubscribe_timer, on_open,
  on_close, on_error, drop_socket, disconnect, is_empty,
}
use wireless_gateway.Terminal.Traffic.{tx_command, handle_user_input, send_break_signal, break_sent}
use wireless_gateway.Terminal.Invariant.{
  registers, SentCommand, Inv, Keeps, Keeps-seq, Keeps-attempt, and_then-Inv, or_else-Inv,
  on_page-Keeps, on_browser-Keeps, show-Keeps, send-Inv, send_tx-Inv,
}

pub skip-Keeps : Keeps skip
skip-Keeps w v = v

update_status-Keeps : (m : String) (c : Color) → Keeps (update_status m c)
unfolding update_status
update_status-Keeps m c = on_page-Keeps _

update_connection_status-Keeps : (b : Bool) → Keeps (update_connection_status b)
unfolding update_connection_status
update_connection_status-Keeps true = on_page-Keeps _
update_connection_status-Keeps false = on_page-Keeps _

show_error-Keeps : (m : String) → Keeps (show_error m)
unfolding show_error
show_error-Keeps m = show-Keeps _

pub toggle_echo-Keeps : Keeps toggle_echo
unfolding toggle_echo
toggle_echo-Keeps w v = record {
  subscription_range = v.subscription_range;
  tx_range = v.tx_range;
  tx_drawn = v.tx_drawn;
  commands = v.commands;
}

pub clear_timeout-Keeps : (t : Option ℕ) → Keeps (clear_timeout t)
unfolding clear_timeout
clear_timeout-Keeps none = skip-Keeps
clear_timeout-Keeps (some t) = on_browser-Keeps _ (λ b. refl)

set_resubscribe-Keeps : Keeps set_resubscribe
unfolding set_resubscribe
set_resubscribe-Keeps w v = record {
  subscription_range = v.subscription_range;
  tx_range = v.tx_range;
  tx_drawn = v.tx_drawn;
  commands = v.commands;
}

-- Registering establishes the invariant but for the commands sent before: it draws both ids.
register_client-Inv : (w : World) → All SentCommand w.browser.sent → Inv (after (register_client w))
unfolding register_client
register_client-Inv w h =
    and_then-Inv (send (register_command v.this.subscription_sid) v) _
      (send-Inv (register_command v.this.subscription_sid) v drawn
        (registers _ (omega arith, omega arith) refl))
      (Keeps-seq (writeln _) set_resubscribe (show-Keeps _) set_resubscribe-Keeps)
  where
    v : World
    v = after (draw_sids w)

    drawn : Inv v
    drawn = record {
      subscription_range = (omega arith, omega arith);
      tx_range = (omega arith, omega arith);
      tx_drawn = λ e. refl;
      commands = h;
    }

pub register_client-Keeps : Keeps register_client
register_client-Keeps w v = register_client-Inv w v.commands

pub on_open-Keeps : Keeps on_open
unfolding on_open update_status update_connection_status
on_open-Keeps w v =
    and_then-Inv (register_client _) _ (register_client-Inv _ v.commands) (show-Keeps _)

pub on_resubscribe_timer-Keeps : Keeps on_resubscribe_timer
unfolding on_resubscribe_timer
on_resubscribe_timer-Keeps w v =
    elim (Bool-cases (not w.this.is_registered && w.this.is_connected)) [
      | inl e ↦
          rw e (Keeps-seq (writeln _) register_client (show-Keeps _) register_client-Keeps w v)
      | inr e ↦ rw e v
    ]

pub on_close-Keeps : Keeps on_close
unfolding on_close update_status update_connection_status
on_close-Keeps w v = record {
  subscription_range = v.subscription_range;
  tx_range = v.tx_range;
  tx_drawn = λ e. cc;
  commands = v.commands;
}

pub on_error-Keeps : (m : String) → Keeps (on_error m)
unfolding on_error
on_error-Keeps m =
    Keeps-seq (show_error _) (update_status _ _) (show_error-Keeps _) (update_status-Keeps _ _)

new_socket-Keeps : Keeps new_socket
unfolding new_socket
new_socket-Keeps w v = ground arith

pub connect-Keeps : Keeps connect
unfolding connect
connect-Keeps w v = elim (Bool-cases (is_empty w.page.url)) [
  | inl e ↦ rw e (show_error-Keeps _ w v)
  | inr e ↦ rw e (
      Keeps-seq (update_status _ _) _ (update_status-Keeps _ _)
        (Keeps-attempt new_socket _ new_socket-Keeps (λ x u. show_error-Keeps _ u)) w v)
]

drop_socket-Keeps : Keeps drop_socket
unfolding drop_socket close
drop_socket-Keeps w v = ground arith

pub disconnect-Keeps : Keeps disconnect
unfolding disconnect update_status update_connection_status
disconnect-Keeps w v =
    and_then-Inv (clear_timeout w.this.resubscribe_timer w) _
      (clear_timeout-Keeps w.this.resubscribe_timer w v)
      λ u hu. and_then-Inv (drop_socket u) _ (drop_socket-Keeps u hu) λ x hx. record {
        subscription_range = tt;
        tx_range = hx.tx_range;
        tx_drawn = λ e. cc;
        commands = hx.commands;
      }

pub handle_user_input-Keeps : (text : List ℕ) → Keeps (handle_user_input text)
unfolding handle_user_input
handle_user_input-Keeps text w v =
    elim (Bool-cases (not w.this.is_connected || not (is_some w.this.socket))) [
      | inl e ↦ rw e (show_error-Keeps _ w v)
      | inr e ↦ elim (Bool-cases (ltb w.browser.max_arguments (length (encode text)))) [
        | inl f ↦ rw e (rw f v)
        | inr f ↦ rw e (
            rw f (
              or_else-Inv (send (tx_command w.this.tx_sid (str (btoa (encode text)))) w) _
                (send_tx-Inv w (str (btoa (encode text))) v (ground arith))
                (λ x u. show_error-Keeps _ u)))
      ]
    ]

pub send_break_signal-Keeps : Keeps send_break_signal
unfolding send_break_signal
send_break_signal-Keeps w v = elim (Bool-cases (w.this.is_connected && is_some w.this.socket)) [
  | inl e ↦ rw e (
      and_then-Inv (send (tx_command w.this.tx_sid (str (btoa (3 ∷ [])))) w) (writeln break_sent)
        (send_tx-Inv w (str (btoa (3 ∷ []))) v (ground arith)) (show-Keeps (line break_sent)))
  | inr e ↦ rw e v
]
