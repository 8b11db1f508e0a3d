-- ===== src/Gateway/Registration.antt =====
-- The contract of the tables of handlers and queues (ws_server/src/ws_server.c).
use wireless_gateway.Prelude.{
  ℕ, ◌≡◌, ◌≢◌, refl, Bool, true, false, List, [], ◌∷◌, ◌++◌, Option, none, some, All, map, arith,
}
use wireless_gateway.Gateway.State.{Call, Server, find_key, remove_key}
use wireless_gateway.Gateway.Registry.{api_call_register, api_call_unregister, break_by_fid}

find_key-append :
    (k v : ℕ) (m : List (ℕ × ℕ)) → find_key k m ≡ none → find_key k (m ++ (k, v) ∷ []) ≡ some v
find_key-append k v [] h = ground arith
find_key-append k v ((j, u) ∷ m) h = ground (arith, find_key-append k v m)

find_key-append_other :
    (k j v : ℕ) (m : List (ℕ × ℕ)) → k ≢ j → find_key j (m ++ (k, v) ∷ []) ≡ find_key j m
find_key-append_other k j v [] h = ground arith
find_key-append_other k j v ((i, u) ∷ m) h = ground (arith, find_key-append_other k j v m h)

-- What a registration promises, of the server before it and its result.
pub record Registers (fid : ℕ) (handler : Option ℕ) (s : Server) (r : Server × Bool) : Type 0 where
  pub refused : r.1 ≡ false → r.0.handlers ≡ s.handlers
  pub used : r.1 ≡ true → fid ≢ 0
  pub fresh : r.1 ≡ true → find_key fid s.handlers ≡ none
  pub found : r.1 ≡ true → find_key fid r.0.handlers ≡ handler
  pub others : (other : ℕ) → fid ≢ other → find_key other r.0.handlers ≡ find_key other s.handlers

-- A registration succeeds only for an FID that is not 0 and has no handler yet, and then the FID's
-- handler is the one that was given; one that fails leaves the handlers as they are. Either way every
-- other FID keeps what it had.
pub api_call_register-Registers :
    (taken : Bool) (handler : Option ℕ) (fid : ℕ) (s : Server)
    → Registers fid handler s (api_call_register taken handler fid s)
unfolding api_call_register
api_call_register-Registers taken none fid s = record {
  refused = λ e. refl;
  used = λ e. absurd cc;
  fresh = λ e. absurd cc;
  found = λ e. absurd cc;
  others = λ other d. refl;
}
api_call_register-Registers taken (some h) fid s = record {
  refused = λ e. ground arith;
  used = λ e. ground arith;
  fresh = λ e. ground arith;
  found = λ e. ground (arith, find_key-append fid h s.handlers);
  others = λ other d. ground (arith, find_key-append_other fid other h s.handlers d);
}

-- An FID that has a handler is refused another one.
pub api_call_register-again :
    (taken : Bool) (handler : Option ℕ) (fid : ℕ) (s : Server) (h : ℕ)
    → find_key fid s.handlers ≡ some h
    → api_call_register taken handler fid s ≡ (s, false)
unfolding api_call_register
api_call_register-again taken none fid s h e = refl
api_call_register-again taken (some g) fid s h e = ground arith

-- No key stands in the table twice.
abbrev pub Distinct : List (ℕ × ℕ) → Type 0
Distinct [] = Unit
Distinct ((k, v) ∷ m) = (find_key k m ≡ none) × Distinct m

Distinct-append :
    (k v : ℕ) (m : List (ℕ × ℕ)) → find_key k m ≡ none → Distinct m → Distinct (m ++ (k, v) ∷ [])
Distinct-append k v [] h d = (refl, tt)
Distinct-append k v ((j, u) ∷ m) h d =
    (ground (arith, find_key-append_other k j v m), Distinct-append k v m (ground arith) d.1)

find_key-remove_key : (k : ℕ) (m : List (ℕ × ℕ)) → Distinct m → find_key k (remove_key k m) ≡ none
find_key-remove_key k [] d = refl
find_key-remove_key k ((j, v) ∷ m) d = ground (arith, find_key-remove_key k m d.1)

-- The calls of an FID are over.
abbrev pub IsOver : ℕ → Call → Type 0
IsOver fid c = c.fid ≡ fid → c.session ≡ none

break_by_fid-IsOver : (fid : ℕ) (cs : List Call) → All (IsOver fid) (map (break_by_fid fid) cs)
break_by_fid-IsOver fid [] = tt
break_by_fid-IsOver fid (c ∷ cs) = (λ e. ground arith, break_by_fid-IsOver fid cs)

-- Where no FID has two handlers, a removal of the handler of an FID that succeeds leaves the FID
-- without one, and every call of the FID in both lists is over.
pub api_call_unregister-IsOver :
    (taken : Bool) (fid : ℕ) (s : Server)
    → Distinct s.handlers
    → (api_call_unregister taken fid s).1 ≡ true
    → let t = (api_call_unregister taken fid s).0 in
      (find_key fid t.handlers ≡ none) × All (IsOver fid) t.calls × All (IsOver fid) t.waiting
unfolding api_call_unregister
api_call_unregister-IsOver taken fid s d h = ground (
  arith,
  find_key-remove_key fid s.handlers d,
  break_by_fid-IsOver fid s.calls,
  break_by_fid-IsOver fid s.waiting,
)
