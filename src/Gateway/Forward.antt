-- ===== src/Gateway/Forward.antt =====
-- The second part of a worker's pass (ws_server/src/ws_server.c): calls are deleted, or forwarded to the
-- queues of the peripherals.
use wireless_gateway.Prelude.{
  ℕ, zero, suc, ◌^◌, Bool, not, ◌&&◌, List, [], ◌∷◌, ◌++◌, Option, none, some, Text, leb,
  if◌then◌else◌, length,
}
use wireless_gateway.Gateway.State.{
  Call, Msg, Server, answer, rest, spend, flag_new, flag_long_term, flag_to_delete, has_flag,
  clear_new, call_client_id_match, break_call, find_key, sub32,
}
use wireless_gateway.Gateway.Send.{send_status}

abbrev pub status_busy : ℕ
status_busy = 3

abbrev pub status_invalid : ℕ
status_invalid = 4

abbrev pub status_delivered : ℕ
status_delivered = 5

abbrev pub message : Call → Option Text → Msg
message c payload = record { fid = c.fid; id = c.id; payload = payload }

-- ws_hal_queue_send of a message; a full queue is answered with BUSY, and the call is over.
unfoldable pub post : ℕ → Msg → Call → Call → Server → Call × Server
post queue msg kept c s =
    if answer s.posts
    then (kept, record s { posts = rest s.posts; forwarded = s.forwarded ++ (queue, msg) ∷ [] })
    else (break_call c, (send_status c status_busy (record s { posts = rest s.posts })).0)

-- A long-term call keeps its argument, and posts a copy.
unfoldable pub post_copy : ℕ → Option Text → Call → Server → Call × Server
unfolding post
post_copy queue none c s = post queue (message c none) c c s
post_copy queue (some []) c s = post queue (message c none) c c s
post_copy queue (some (b ∷ bs)) c s =
    if answer s.mallocs then post queue (message c (some (b ∷ bs))) c c (spend s) else (c, spend s)

-- vForwardCallToPeripheral
unfoldable pub forward_call : ℕ → Call → Server → Call × Server
unfolding post_copy
forward_call queue c s =
    if answer s.mallocs
    then (if has_flag c.flags flag_long_term
        then post_copy queue c.req c (spend s)
        else post queue (message c c.req) (record c { req = none }) c (spend s))
    else (c, spend s)

-- The status of a call that has just been forwarded for the first time.
unfoldable pub confirm : Call → Server → Call × Server
confirm c s =
    if has_flag c.flags flag_new
    then (let (s', sent) = send_status c status_delivered s in
        if sent then (record c { flags = clear_new c.flags }, s') else (c, s'))
    else (c, s)

abbrev pub drop_matching : (Call → Bool) → List Call → List Call
drop_matching p [] = []
drop_matching p (c ∷ cs) = let others = drop_matching p cs in if p c then others else c ∷ others

abbrev pub is_throttled : ℕ → Call → Bool
is_throttled now c =
    has_flag c.flags flag_long_term
    && not (has_flag c.flags flag_new)
    && leb (2 ^ 31) (sub32 now c.next_poll)

-- One call of the loop: what is left of the calls before it, of those behind it, and the server.
pub record Pass : Type 0 where
  pub before : List Call
  pub behind : List Call
  pub server : Server

abbrev pub delete_matching : (Call → Bool) → Pass → Pass
delete_matching p pass = record {
  before = drop_matching p pass.before;
  behind = drop_matching p pass.behind;
  server = record (pass.server) { waiting = drop_matching p pass.server.waiting };
}

unfoldable pub delete_call : Call → Pass → Pass
delete_call c pass =
    let told = record pass { server = (send_status c status_delivered pass.server).0 } in
    elim c.session [
      | none ↦ told
      | some fd ↦ delete_matching (call_client_id_match fd c.fid c.id) told
    ]

unfoldable pub hand_over : ℕ → Call → Pass → Pass
unfolding forward_call confirm
hand_over queue c pass =
    let (c', s') = forward_call queue c pass.server in
    let (c'', s'') = confirm c' s' in
    record pass { server = record s'' { waiting = s''.waiting ++ c'' ∷ [] } }

unfoldable pub forward_one : ℕ → Call → Pass → Pass
unfolding delete_call hand_over
forward_one now c pass =
    if has_flag c.flags flag_to_delete
    then delete_call c pass
    else if is_throttled now c
    then record pass { before = pass.before ++ c ∷ [] }
    else elim (find_key c.fid pass.server.fid_queues) [
      | some queue ↦ hand_over queue c pass
      | none ↦ record pass { server = (send_status c status_invalid pass.server).0 }
    ]

-- The loop over the calls. Each round takes one away, so their number is fuel enough.
unfoldable pub forward_loop : ℕ → ℕ → Pass → Pass
unfolding forward_one
forward_loop zero now pass = pass
forward_loop (suc fuel) now pass = elim pass.behind [
  | [] ↦ pass
  | c ∷ cs ↦ forward_loop fuel now (forward_one now c (record pass { behind = cs }))
]

unfoldable pub forward : ℕ → Server → Server
unfolding forward_loop
forward now s =
    let pass =
      forward_loop (length s.calls) now (record { before = []; behind = s.calls; server = s }) in
    record (pass.server) { calls = pass.before ++ pass.behind }
