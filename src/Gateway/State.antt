-- ===== src/Gateway/State.antt =====
-- The globals of ws_server/src/ws_server.c, and its structures.
--
-- A session stands for a connection and is named by its descriptor. What the operating system and the
-- transport answer (malloc, ws_conn_send_async, ws_hal_queue_send) is given in advance, one list for
-- each; where a list has run out the answer is success.
use wireless_gateway.Prelude.{
  ℕ, ◌+◌, ◌-◌, ◌/◌, ◌%◌, ◌^◌, Bool, true, false, ◌&&◌, List, [], ◌∷◌, Option, none, some, Text,
  ◌==◌, if◌then◌else◌,
}

pub record Session : Type 0 where
  pub fd : ℕ
  pub alive_ts : ℕ
  pub ping_ts : ℕ

-- `session` is the descriptor of the session, or `none` once the call is over.
pub record Call : Type 0 where
  pub session : Option ℕ
  pub req : Option Text
  pub id : ℕ
  pub handler : Option ℕ
  pub fid : ℕ
  pub pending : ℕ
  pub flags : ℕ
  pub poll_interval : ℕ
  pub next_poll : ℕ

pub data Frame : Type 0 where
  text : Text → Frame
  ping : Frame
  pong : Text → Frame
  close : Frame

-- webapi_msg_t
pub record Msg : Type 0 where
  pub fid : ℕ
  pub id : ℕ
  pub payload : Option Text

pub record Server : Type 0 where
  pub handlers : List (ℕ × ℕ)
  pub fid_queues : List (ℕ × ℕ)
  pub calls : List Call
  pub waiting : List Call
  pub sessions : List Session
  pub outbox : List (ℕ × Frame)
  pub forwarded : List (ℕ × Msg)
  pub invoked : List (ℕ × Msg)
  pub mallocs : List Bool
  pub sends : List Bool
  pub posts : List Bool

abbrev pub answer : List Bool → Bool
answer [] = true
answer (b ∷ bs) = b

abbrev pub rest : List Bool → List Bool
rest [] = []
rest (b ∷ bs) = bs

abbrev pub flag_new : ℕ
flag_new = 1

abbrev pub flag_long_term : ℕ
flag_long_term = 4

abbrev pub flag_to_delete : ℕ
flag_to_delete = 8

-- flags & flag, for a flag that is a power of two
abbrev pub has_flag : ℕ → ℕ → Bool
has_flag flags flag = flags / flag % 2 == 1

-- flags | CALL_FLAG_NEW and flags & ~CALL_FLAG_NEW
abbrev pub set_new : ℕ → ℕ
set_new flags = flags - flags % 2 + 1

abbrev pub clear_new : ℕ → ℕ
clear_new flags = flags - flags % 2

abbrev pub is_fd : ℕ → Option ℕ → Bool
is_fd fd none = false
is_fd fd (some s) = s == fd

abbrev pub has_session : Option ℕ → Bool
has_session none = false
has_session (some s) = true

-- bCallClientIdMatch, bCallIdMatch, bCallFidMatch
abbrev pub call_client_id_match : ℕ → ℕ → ℕ → Call → Bool
call_client_id_match fd fid id c = is_fd fd c.session && c.fid == fid && c.id == id

abbrev pub call_id_match : ℕ → Call → Bool
call_id_match id c = c.id == id && has_session c.session

abbrev pub call_fid_match : ℕ → Call → Bool
call_fid_match fid c = c.fid == fid && has_session c.session

abbrev pub break_call : Call → Call
break_call c = record c { session = none }

-- vBreakApiCallByFd
abbrev pub break_by_fd : ℕ → Call → Call
break_by_fd fd c = if is_fd fd c.session then break_call c else c

abbrev pub find_session : ℕ → List Session → Option Session
find_session fd [] = none
find_session fd (s ∷ ss) = if s.fd == fd then some s else find_session fd ss

abbrev pub put_session : Session → List Session → List Session
put_session t [] = []
put_session t (s ∷ ss) = if s.fd == t.fd then t ∷ ss else s ∷ put_session t ss

abbrev pub remove_session : ℕ → List Session → List Session
remove_session fd [] = []
remove_session fd (s ∷ ss) =
    let others = remove_session fd ss in if s.fd == fd then others else s ∷ others

-- The first entry under a key: pxLinkedListFindFirst with bHandlerFidMatch or bFidQueueMatch.
abbrev pub find_key : ℕ → List (ℕ × ℕ) → Option ℕ
find_key k [] = none
find_key k ((j, v) ∷ m) = if j == k then some v else find_key k m

abbrev pub remove_key : ℕ → List (ℕ × ℕ) → List (ℕ × ℕ)
remove_key k [] = []
remove_key k ((j, v) ∷ m) = if j == k then m else (j, v) ∷ remove_key k m

-- uint32_t subtraction and addition
abbrev pub sub32 : ℕ → ℕ → ℕ
sub32 a b = (a + 2 ^ 32 - b) % 2 ^ 32

abbrev pub add32 : ℕ → ℕ → ℕ
add32 a b = (a + b) % 2 ^ 32

-- One answer of malloc is used up.
abbrev pub spend : Server → Server
spend s = record s { mallocs = rest s.mallocs }
