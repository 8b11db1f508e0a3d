-- ===== src/Lib.antt =====
-- A model of the Wireless gateway: an ESP32 that offers its UART and its field buses to web pages by
-- JSON calls over a WebSocket. It covers the web terminal, the WebSocket server and the frame parser.
--
-- A page sends a call `{"FID": function, "SID": the caller's id, "FLAGS": bits, "ARG": data}`. The server
-- checks it, keeps it in a list of calls, hands it to the queue of the peripheral that serves the FID and
-- moves it to a list of waiting calls; a response of the peripheral goes back to the client of a waiting
-- call, and a long-term call (a subscription) is then polled again. The terminal subscribes to the bytes
-- that the UART receives (FID 0x1021) and sends bytes to it (FID 0x1022), both in Base64.
--
-- Files and code:
--   Terminal         main/flash_data/terminal/script.js, the class ESP32Terminal. World has its fields, the
--                    page and the browser's sockets and timers; View, Session and Traffic have its methods
--                    (`connect`, `registerClient`, `handleWebSocketMessage` ... in snake case); Events has
--                    the constructor, the listeners and the events. Json, Utf8 and Base64 are the browser's
--                    JSON values, TextEncoder, btoa and atob, by their standards.
--   Gateway          ws_server/src/ws_server.c. State has its structures and lists; Registry the tables of
--                    handlers and queues; Response and Send what it prints and sends; Intake the callbacks
--                    of the transport (`ws_server_on_frame`, `_on_connect`, `_on_disconnect`, `_on_text`);
--                    Serve, Forward and Respond the three parts of `vWsApiCallWorkerStep`.
--   FrameParser      main/ws_frame_parser.c, `WsFrame_Parse`.
--   Json             what the firmware calls of cJSON, as a parameter (`CJson`), and C's strtol.
--   Interop          the terminal's commands as the parser reads them.
--   Prelude          shared names, lists and tests on native numbers.
-- The other children of Terminal and Gateway hold the theorems, and the files named Tests hold concrete
-- runs. Every theorem of the list below that has hypotheses is applied there.
--
-- State and effects. A handler of the page is an `Action`, from the whole state to the next state or to
-- the exception that left it with the state it left, and `attempt` is try and catch; `dispatch` runs the
-- handlers of one event, and an event that the browser cannot deliver in a state does nothing. The
-- server's functions take and give the whole `Server`. What malloc, ws_conn_send_async and the queues
-- answer is a list that is given in advance and read in the order of the calls; an empty list answers
-- success. Frames, queue messages and handler invocations are recorded in the state. `Event` and `step`
-- of Gateway/Invariant/Run have one event for each stretch of code that holds the mutex, so that a run
-- is any interleaving of them. The tick is read once in each such stretch. Arithmetic of C is on natural
-- numbers with the wrap-around of 32 bits written out; flags are tested by division.
--
-- Fuel. `forward_loop` has as much fuel as there are calls, and each round takes one call away. The other
-- loops are by recursion on lists.
--
-- Assumptions. A session is known by its descriptor. cJSON is any reader (`CJson`): its results are not
-- restricted, but where a theorem says what a text is read as. JSON.parse gives a value or an exception,
-- and the bytes that TextDecoder is given stand for the text that it reads. Typed text is given by its
-- 16-bit code units. How many arguments the JavaScript engine lets a call spread is a number of the
-- browser's state (`max_arguments`).
--
-- Not modelled: console logging, the layout timer and the theme of the terminal; memory itself (freeing,
-- and the count of references to a sent buffer); the peripherals behind the queues (main/apih_uart.c,
-- main/uart.c, main/apih_modbus.c, main/apih_sys.c), settings, Wi-Fi and file serving; ports to the
-- ESP-IDF, copies of other projects (tftp_server, protocol_examples_common, xterm.js) and the device
-- simulators.
pub mod Prelude
pub mod Base64
pub mod Json
pub mod Terminal
pub mod FrameParser
pub mod Gateway
pub mod Interop
