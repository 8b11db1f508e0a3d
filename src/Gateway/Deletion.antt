-- ===== src/Gateway/Deletion.antt =====
-- What a delete request does to the calls (ws_server/src/ws_server.c).
use wireless_gateway.Prelude.{
  ℕ, ◌≡◌, Bool, true, false, List, [], ◌∷◌, some, All, inl, inr, Bool-cases,
}
use wireless_gateway.Gateway.State.{Call, call_client_id_match, flag_to_delete, has_flag}
use wireless_gateway.Gateway.Forward.{
  Pass, drop_matching, delete_call, forward_one, status_delivered,
}
use wireless_gateway.Gateway.Quiet.{send_status-Quiet}

-- A call that a test does not find.
abbrev pub Fails : (Call → Bool) → Call → Type 0
Fails p c = p c ≡ false

drop_matching-Fails : (p : Call → Bool) (cs : List Call) → All (Fails p) (drop_matching p cs)
drop_matching-Fails p [] = tt
drop_matching-Fails p (c ∷ cs) = elim (Bool-cases (p c)) [
  | inl e ↦ rw e (drop_matching-Fails p cs)
  | inr e ↦ rw e (e, drop_matching-Fails p cs)
]

-- A list and what is left of it once the calls that a test finds are dropped.
pub data Without (p : Call → Bool) : List Call → List Call → Type 0 where
  nothing : Without p [] []
  dropped : (c : Call) {cs ds : List Call} → p c ≡ true → Without p cs ds → Without p (c ∷ cs) ds
  kept :
      (c : Call) {cs ds : List Call} → p c ≡ false → Without p cs ds → Without p (c ∷ cs) (c ∷ ds)

drop_matching-Without : (p : Call → Bool) (cs : List Call) → Without p cs (drop_matching p cs)
drop_matching-Without p [] = nothing
drop_matching-Without p (c ∷ cs) = elim (Bool-cases (p c)) [
  | inl e ↦ rw e (dropped c e (drop_matching-Without p cs))
  | inr e ↦ rw e (kept c e (drop_matching-Without p cs))
]

delete_call-Without :
    (c : Call) (fd : ℕ) (p : Pass)
    → c.session ≡ some fd
    → let q = delete_call c p in
      let test = call_client_id_match fd c.fid c.id in
      Without test p.before q.before
      × Without test p.behind q.behind
      × Without test p.server.waiting q.server.waiting
unfolding delete_call
delete_call-Without c fd p session =
    let test = call_client_id_match fd c.fid c.id in
    rw (session, delete_call)
      (
        drop_matching-Without test p.before,
        drop_matching-Without test p.behind,
        rw (send_status-Quiet c status_delivered p.server).waiting
            (drop_matching-Without test p.server.waiting),
      )

-- A delete request of a client that is connected takes out of the calls before it, behind it and in
-- the waiting list exactly the calls of the same client with the same FID and id, and keeps the
-- others in their order.
pub forward_one-Without :
    (now : ℕ) (c : Call) (fd : ℕ) (p : Pass)
    → has_flag c.flags flag_to_delete ≡ true
    → c.session ≡ some fd
    → let q = forward_one now c p in
      let test = call_client_id_match fd c.fid c.id in
      Without test p.before q.before
      × Without test p.behind q.behind
      × Without test p.server.waiting q.server.waiting
unfolding forward_one
forward_one-Without now c fd p d session = rw d (delete_call-Without c fd p session)
