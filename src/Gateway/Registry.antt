-- ===== src/Gateway/Registry.antt =====
-- The tables of handlers and of peripheral queues, by FID (ws_server/src/ws_server.c).
-- `taken` says whether the mutex was had within its timeout.
use wireless_gateway.Prelude.{
  ℕ, Bool, true, false, not, ◌||◌, [], ◌∷◌, ◌++◌, Option, none, some, map, ◌==◌, if◌then◌else◌,
}
use wireless_gateway.Gateway.State.{
  Call, Server, answer, rest, spend, break_call, find_key, remove_key,
}

-- `handler` is `none` for a null pointer.
unfoldable pub api_call_register : Bool → Option ℕ → ℕ → Server → Server × Bool
api_call_register taken none fid s = (s, false)
api_call_register taken (some handler) fid s =
    if fid == 0 || not taken then (s, false) else elim (find_key fid s.handlers) [
      | some registered ↦ (s, false)
      | none ↦
          if answer s.mallocs
          then (
            record s { mallocs = rest s.mallocs; handlers = s.handlers ++ (fid, handler) ∷ [] },
            true,
          )
          else (spend s, false)
    ]

-- vBreakApiCallByFid, in both lists
abbrev pub break_by_fid : ℕ → Call → Call
break_by_fid fid c = if c.fid == fid then break_call c else c

-- The mutex is recursive, so the inner take cannot fail.
unfoldable pub api_call_unregister : Bool → ℕ → Server → Server × Bool
api_call_unregister taken fid s =
    if fid == 0 || not taken then (s, false) else elim (find_key fid s.handlers) [
      | none ↦ (s, false)
      | some registered ↦ (
        record s {
          calls = map (break_by_fid fid) s.calls;
          waiting = map (break_by_fid fid) s.waiting;
          handlers = remove_key fid s.handlers;
        },
        true,
      )
    ]

unfoldable pub register_fid_queue : Bool → ℕ → ℕ → Server → Server × Bool
register_fid_queue taken fid queue s =
    if not taken then (s, false) else elim (find_key fid s.fid_queues) [
      | some existing ↦ (s, false)
      | none ↦
          if answer s.mallocs
          then (
            record s { mallocs = rest s.mallocs; fid_queues = s.fid_queues ++ (fid, queue) ∷ [] },
            true,
          )
          else (spend s, false)
    ]
