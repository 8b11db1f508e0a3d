-- ===== src/Gateway/Invariant/Sessions.antt =====
-- Sessions and their calls when a connection opens, is heard from, or closes
-- (ws_server/src/ws_server.c).
use wireless_gateway.Prelude.{
  ℕ, ◌≡◌, ◌≢◌, refl, true, false, List, [], ◌∷◌, Option, none, some, is_some, All, arith, map, inl,
  inr, Option-cases, Bool-cases,
}
use wireless_gateway.Gateway.State.{
  Session, Call, Server, find_session, put_session, remove_session, is_fd, break_by_fd,
}
use wireless_gateway.Gateway.Intake.{on_connect, on_disconnect, touch, touch_session, new_session}
use wireless_gateway.Gateway.Invariant.{HasSession, Sound, AllSound, Inv, Grows, AllSound-Grows}

pub cons-Grows : (t : Session) (ss : List Session) → Grows ss (t ∷ ss)
cons-Grows t ss fd h = ground arith

pub put_session-Grows : (t : Session) (ss : List Session) → Grows ss (put_session t ss)
put_session-Grows t [] fd h = h
put_session-Grows t (s ∷ ss) fd h = ground (arith, put_session-Grows t ss fd)

find_session-remove :
    (fd k : ℕ) (ss : List Session)
    → k ≢ fd
    → find_session k (remove_session fd ss) ≡ find_session k ss
find_session-remove fd k [] h = refl
find_session-remove fd k (s ∷ ss) h = ground (arith, find_session-remove fd k ss)

HasSession-remove :
    (fd : ℕ) (ss : List Session) (o : Option ℕ)
    → is_fd fd o ≡ false
    → HasSession ss o
    → HasSession (remove_session fd ss) o
HasSession-remove fd ss none e h = tt
HasSession-remove fd ss (some k) e h = rw (find_session-remove fd k ss (ground arith)) h

break_by_fd-Sound :
    (fd : ℕ) (ss : List Session) (c : Call)
    → Sound ss c
    → Sound (remove_session fd ss) (break_by_fd fd c)
break_by_fd-Sound fd ss c v = elim (Bool-cases (is_fd fd c.session)) [
  | inl e ↦ rw e (record { session = tt; id_range = v.id_range; fid_used = v.fid_used })
  | inr e ↦ rw e (record {
    session = HasSession-remove fd ss c.session e v.session;
    id_range = v.id_range;
    fid_used = v.fid_used;
  })
]

break-AllSound :
    (fd : ℕ) (ss : List Session) (cs : List Call)
    → AllSound ss cs
    → AllSound (remove_session fd ss) (map (break_by_fd fd) cs)
break-AllSound fd ss [] h = tt
break-AllSound fd ss (c ∷ cs) h = (break_by_fd-Sound fd ss c h.0, break-AllSound fd ss cs h.1)

pub on_disconnect-Inv : (fd : ℕ) (s : Server) → Inv s → Inv (on_disconnect fd s)
unfolding on_disconnect
on_disconnect-Inv fd s v = elim (Option-cases (find_session fd s.sessions)) [
  | inl e ↦ rw (e, on_disconnect) v
  | inr (t, e) ↦
      rw (e, on_disconnect)
        (record {
          calls = break-AllSound fd s.sessions s.calls v.calls;
          waiting = break-AllSound fd s.sessions s.waiting v.waiting;
        })
]

pub on_connect-Inv : (fd now : ℕ) (s : Server) → Inv s → Inv (on_connect fd now s)
unfolding on_connect
on_connect-Inv fd now s v = ground (
  arith,
  AllSound-Grows s.sessions (new_session fd now ∷ s.sessions) s.calls
      (cons-Grows (new_session fd now) s.sessions) v.calls,
  AllSound-Grows s.sessions (new_session fd now ∷ s.sessions) s.waiting
      (cons-Grows (new_session fd now) s.sessions) v.waiting,
)

pub touch_session-Inv : (fd now : ℕ) (s : Server) → Inv s → Inv (touch_session fd now s)
touch_session-Inv fd now s v = elim (Option-cases (find_session fd s.sessions)) [
  | inl e ↦ rw (e, touch_session) v
  | inr (t, e) ↦
      rw (e, touch_session)
        (record {
          calls =
              AllSound-Grows s.sessions _ s.calls (put_session-Grows (touch now t) s.sessions)
                v.calls;
          waiting =
              AllSound-Grows s.sessions _ s.waiting (put_session-Grows (touch now t) s.sessions)
                v.waiting;
        })
]

-- What a closed connection leaves behind: no session, and no call in either list that refers to it.
abbrev pub Forgets : ℕ → List Call → Type 0
Forgets fd = All (λ c. is_fd fd c.session ≡ false)

break-Forgets : (fd : ℕ) (cs : List Call) → Forgets fd (map (break_by_fd fd) cs)
break-Forgets fd [] = tt
break-Forgets fd (c ∷ cs) = (ground arith, break-Forgets fd cs)

find_session-remove_self :
    (fd : ℕ) (ss : List Session) → find_session fd (remove_session fd ss) ≡ none
find_session-remove_self fd [] = refl
find_session-remove_self fd (s ∷ ss) = ground (arith, find_session-remove_self fd ss)

-- Once a connection with a session has closed, its session is gone, and no call of either list refers
-- to it.
pub on_disconnect-Forgets :
    (fd : ℕ) (s : Server)
    → is_some (find_session fd s.sessions) ≡ true
    → (find_session fd (on_disconnect fd s).sessions ≡ none)
      × Forgets fd (on_disconnect fd s).calls
      × Forgets fd (on_disconnect fd s).waiting
unfolding on_disconnect
on_disconnect-Forgets fd s h = elim (Option-cases (find_session fd s.sessions)) [
  | inl e ↦ ground arith
  | inr (t, e) ↦
      rw (e, on_disconnect)
        (
          find_session-remove_self fd s.sessions,
          break-Forgets fd s.calls,
          break-Forgets fd s.waiting,
        )
]
