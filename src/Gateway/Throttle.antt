-- ===== src/Gateway/Throttle.antt =====
-- What a pass of the worker over the calls leaves in their list (ws_server/src/ws_server.c).
use wireless_gateway.Prelude.{
  ℕ, zero, suc, ◌≤◌, ◌≡◌, ap, Bool, true, false, List, [], ◌∷◌, All, All-append, arith, inl, inr,
  length, List-cases, Option-cases, Bool-cases,
}
use mathlib.Core.List.{append-nil}
use wireless_gateway.Gateway.State.{Call, Server, flag_to_delete, has_flag, find_key}
use wireless_gateway.Gateway.Forward.{
  Pass, drop_matching, delete_call, hand_over, is_throttled, forward_one, forward_loop, forward,
}
use wireless_gateway.Gateway.Invariant.Forward.{
  forward_loop-zero, forward_loop-nil, forward_loop-cons,
}

-- A long-term call whose poll is not due yet.
abbrev pub Waits : ℕ → Call → Type 0
Waits now c = (has_flag c.flags flag_to_delete ≡ false) × (is_throttled now c ≡ true)

length-drop_matching : (p : Call → Bool) (cs : List Call) → length (drop_matching p cs) ≤ length cs
length-drop_matching p [] = omega arith
length-drop_matching p (c ∷ cs) = ground (arith, length-drop_matching p cs)

drop_matching-Waits :
    (now : ℕ) (p : Call → Bool) (cs : List Call)
    → All (Waits now) cs
    → All (Waits now) (drop_matching p cs)
drop_matching-Waits now p [] h = tt
drop_matching-Waits now p (c ∷ cs) h = elim (Bool-cases (p c)) [
  | inl e ↦ rw e (drop_matching-Waits now p cs h.1)
  | inr e ↦ rw e (h.0, drop_matching-Waits now p cs h.1)
]

-- One round: the calls before it wait, and none is added behind it.
abbrev Round : ℕ → Pass → Pass → Type 0
Round now p q = All (Waits now) q.before × (length q.behind ≤ length p.behind)

delete_call-Round :
    (now : ℕ) (c : Call) (p : Pass) → All (Waits now) p.before → Round now p (delete_call c p)
unfolding delete_call
delete_call-Round now c p h = elim (Option-cases c.session) [
  | inl e ↦ rw (e, delete_call) (h, omega arith)
  | inr (fd, e) ↦
      rw (e, delete_call) (drop_matching-Waits now _ p.before h, length-drop_matching _ p.behind)
]

forward_one-Round :
    (now : ℕ) (c : Call) (p : Pass) → All (Waits now) p.before → Round now p (forward_one now c p)
unfolding forward_one hand_over
forward_one-Round now c p h = elim (Bool-cases (has_flag c.flags flag_to_delete)) [
  | inl d ↦ rw d (delete_call-Round now c p h)
  | inr d ↦ elim (Bool-cases (is_throttled now c)) [
    | inl t ↦ rw (d, t) (All-append (Waits now) p.before (c ∷ []) h ((d, t), tt), omega arith)
    | inr t ↦ elim (Option-cases (find_key c.fid p.server.fid_queues)) [
      | inl q ↦ rw (d, t) (rw (q, forward_one) (h, omega arith))
      | inr (queue, q) ↦ rw (d, t) (rw (q, forward_one) (h, omega arith))
    ]
  ]
]

loop_ends :
    (fuel now : ℕ) (p : Pass)
    → All (Waits now) p.before
    → length p.behind ≤ fuel
    → All (Waits now) (forward_loop fuel now p).before × ((forward_loop fuel now p).behind ≡ [])
loop_ends zero now p h len = elim (List-cases p.behind) [
  | inl e ↦ rw (forward_loop-zero now p) (h, e)
  | inr (c, cs, e) ↦ absurd (omega (arith, ap length e))
]
loop_ends (suc fuel) now p h len = elim (List-cases p.behind) [
  | inl e ↦ rw (forward_loop-nil fuel now p e) (h, e)
  | inr (c, cs, e) ↦
      let round = forward_one-Round now c (record p { behind = cs }) h in
      rw (forward_loop-cons fuel now p c cs e) (
        loop_ends fuel now (forward_one now c (record p { behind = cs })) round.0
          (omega (arith, round.1, ap length e)))
]

-- Every call that is in the list of calls once the worker has forwarded is a long-term call that is no
-- delete request, is not new, and whose next poll is not due: the loop leaves no other call in it.
pub forward-calls : (now : ℕ) (s : Server) → All (Waits now) (forward now s).calls
unfolding forward
forward-calls now s = rw last.1 (rw append-nil last.0)
  where
    pass : Pass
    pass = forward_loop (length s.calls) now (record { before = []; behind = s.calls; server = s })

    last : All (Waits now) pass.before × (pass.behind ≡ [])
    last = loop_ends (length s.calls) now _ tt (omega arith)
