-- ===== src/Terminal/View.antt =====
-- The methods of script.js that only touch the page: status lines, errors, the echo button.
use wireless_gateway.Prelude.{Bool, true, false, not, String, if◌then◌else◌}
use Prim.Native.String.{◌++◌ as concat}
use wireless_gateway.Terminal.World.{Action, ◌>>◌, modify, on_page, writeln}

pub data Color : Type 0 where
  green red yellow white : Color

abbrev pub css_color : Color → String
css_color green = "#4caf50"
css_color red = "#f44336"
css_color yellow = "#ffeb3b"
css_color white = "#ffffff"

abbrev pub status_class_of : Color → String
status_class_of green = "status connected"
status_class_of red = "status"
status_class_of yellow = "status"
status_class_of white = "status"

unfoldable pub update_status : String → Color → Action
update_status message color = on_page (λ p. record p {
  status_text = message;
  status_color = css_color color;
  status_class = status_class_of color;
})

-- `updateConnectionStatus('connected')`, and any other argument.
unfoldable pub update_connection_status : Bool → Action
update_connection_status true = on_page (λ p. record p {
  connection_text = "Подключено";
  connection_class = "connected";
  connect_label = "Отключиться";
  connect_background = "linear-gradient(135deg, #ef5350 0%, #d32f2f 100%)";
})
update_connection_status false = on_page (λ p. record p {
  connection_text = "Отключено";
  connection_class = "";
  connect_label = "Подключиться";
  connect_background = "linear-gradient(135deg, #5c6bc0 0%, #3949ab 100%)";
})

unfoldable pub show_error : String → Action
show_error message = writeln (concat (concat "\u{1b}[1;31m[ОШИБКА] " message) "\u{1b}[0m")

unfoldable pub toggle_echo : Action
toggle_echo w =
    (do
      modify (λ t. record t { echo_enabled = enabled })
      on_page (λ p. record p {
        echo_label = if enabled then "Echo: ON" else "Echo: OFF";
        echo_background = if enabled then "#4caf50" else "";
      })
      writeln (
          if enabled
          then "\u{1b}[33m[Echo включен]\u{1b}[0m"
          else "\u{1b}[33m[Echo выключен]\u{1b}[0m"))
      w
  where
    enabled : Bool
    enabled = not w.this.echo_enabled
