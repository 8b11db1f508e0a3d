-- ===== src/Interop/Tests.antt =====
-- A registration of the web terminal, read by the gateway's parser.
use wireless_gateway.Prelude.{List, ◌≡◌, ◌≤◌, ◌⊎◌, refl, [], ◌∷◌, some, codes, IsIn, at_head}
use wireless_gateway.Json.Strtol.{strtol_hex}
use wireless_gateway.FrameParser.{parsed, ws_frame_parse}
use wireless_gateway.Gateway.Samples.{one_text, registration_node, registration_text}
use wireless_gateway.Terminal.View.{update_status, update_connection_status}
use wireless_gateway.Terminal.Session.{
  register_command, rx_fid, connect, new_socket, on_open, register_client, draw_sids,
}
use wireless_gateway.Terminal.World.{send, set_resubscribe}
use wireless_gateway.Terminal.Events.{
  Event, click_connect, socket_opened, start, init_terminal, dispatch, on_connect_button, run,
}
use wireless_gateway.Terminal.Samples.{blank_page, new_browser}
use wireless_gateway.Interop.{Prints, run-parsed}

abbrev first_events : List Event
first_events = click_connect ∷ socket_opened 0 ∷ []

registration_sent :
    IsIn
      (0, register_command (some 42))
      (run first_events (start blank_page new_browser)).browser.sent
unfolding run start init_terminal dispatch on_connect_button connect new_socket on_open
    register_client draw_sids set_resubscribe send update_status update_connection_status
registration_sent = at_head refl

registration_printed :
    Prints one_text
      (register_command (some 42))
      42
      b'{'
      (codes "\"FID\":\"0x00001021\",\"SID\":42,\"FLAGS\":4}")
registration_printed = record {
  node = registration_node;
  parses = refl;
  fid = refl;
  flags = refl;
  sid_item = refl;
  sid_value = refl;
}

run-parsed_example :
    (ws_frame_parse one_text registration_text
      ≡ parsed (record { fid = strtol_hex rx_fid; sid = 42; flags = 4 }))
    × ((strtol_hex rx_fid ≡ 0x1021) ⊎ (strtol_hex rx_fid ≡ 0x1022))
    × (1 ≤ 42)
run-parsed_example =
    run-parsed one_text blank_page new_browser first_events 0 (register_command (some 42)) 42 b'{'
      (codes "\"FID\":\"0x00001021\",\"SID\":42,\"FLAGS\":4}") refl registration_sent
      registration_printed
