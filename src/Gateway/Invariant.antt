-- ===== src/Gateway/Invariant.antt =====
-- The invariant of ws_server/src/ws_server.c: a call in either list holds on to no session that has
-- been freed, and its id and FID are in range.
pub mod Sessions
pub mod Intake
pub mod Serve
pub mod Forward
pub mod Respond
pub mod Run
use wireless_gateway.Prelude.{
  ℕ, ◌≤◌, ◌<◌, ◌≡◌, ◌⊎◌, inl, inr, Bool, true, false, List, [], ◌∷◌, Option, none, some, is_some,
  All, arith, sym, subst, ◌∙◌,
}
use wireless_gateway.Gateway.State.{Session, Call, Server, find_session}

-- The session of a call that is not over has not been freed.
abbrev pub HasSession : List Session → Option ℕ → Type 0
HasSession ss none = Unit
HasSession ss (some fd) = is_some (find_session fd ss) ≡ true

pub record Sound (ss : List Session) (c : Call) : Type 0 where
  pub session : HasSession ss c.session
  pub id_range : c.id < 0x10000
  pub fid_used : 1 ≤ c.fid

abbrev pub AllSound : List Session → List Call → Type 0
AllSound ss = All (Sound ss)

pub record Inv (s : Server) : Type 0 where
  pub calls : AllSound s.sessions s.calls
  pub waiting : AllSound s.sessions s.waiting

-- Every session that was there still is.
abbrev pub Grows : List Session → List Session → Type 0
Grows ss ts = (fd : ℕ) → is_some (find_session fd ss) ≡ true → is_some (find_session fd ts) ≡ true

HasSession-Grows :
    (ss ts : List Session) (o : Option ℕ) → Grows ss ts → HasSession ss o → HasSession ts o
HasSession-Grows ss ts none g h = tt
HasSession-Grows ss ts (some fd) g h = g fd h

pub Sound-Grows : {ss ts : List Session} (c : Call) → Grows ss ts → Sound ss c → Sound ts c
Sound-Grows {ss} {ts} c g v = record {
  session = HasSession-Grows ss ts c.session g v.session;
  id_range = v.id_range;
  fid_used = v.fid_used;
}

pub AllSound-Grows :
    (ss ts : List Session) (cs : List Call) → Grows ss ts → AllSound ss cs → AllSound ts cs
AllSound-Grows ss ts [] g h = tt
AllSound-Grows ss ts (c ∷ cs) g h =
    (Sound-Grows {ss = ss} {ts = ts} c g h.0, AllSound-Grows ss ts cs g h.1)

-- A call that is the same, but that may be over.
pub record Follows (c d : Call) : Type 0 where
  pub id : d.id ≡ c.id
  pub fid : d.fid ≡ c.fid
  pub session : (d.session ≡ c.session) ⊎ (d.session ≡ none)

pub Follows-Sound : {ss : List Session} (c d : Call) → Follows c d → Sound ss c → Sound ss d
Follows-Sound {ss} c d f v = record {
  session = elim f.session [
    | inl e ↦ subst (HasSession ss) (sym e) v.session
    | inr e ↦ subst (HasSession ss) (sym e) tt
  ];
  id_range = omega (arith, f.id, v.id_range);
  fid_used = omega (arith, f.fid, v.fid_used);
}

pub Follows-trans : {b c d : Call} → Follows b c → Follows c d → Follows b d
Follows-trans p q = record {
  id = q.id ∙ p.id;
  fid = q.fid ∙ p.fid;
  session = elim q.session [
    | inr e ↦ inr e
    | inl e ↦ elim p.session [ inl d ↦ inl (e ∙ d) | inr d ↦ inr (e ∙ d) ]
  ];
}
