-- ===== src/Gateway/Invariant/Forward.antt =====
-- Forwarding keeps the invariant (ws_server/src/ws_server.c).
use wireless_gateway.Prelude.{
  List-cases, subst, length, ℕ, zero, suc, ◌≡◌, refl, subst, ◌∙◌, Bool, List, [], ◌∷◌, Option, none,
  some, Text, All-append, arith, inl, inr, Option-cases, Bool-cases, length,
}
use wireless_gateway.Gateway.State.{
  Session, Call, Msg, Server, answer, spend, flag_long_term, flag_to_delete, has_flag, find_key,
}
use wireless_gateway.Gateway.Send.{send_status}
use wireless_gateway.Gateway.Forward.{
  post, post_copy, forward_call, confirm, Pass, drop_matching, delete_call, hand_over, is_throttled,
  forward_one, forward_loop, forward, forward_loop, forward, status_delivered, status_invalid,
  message,
}
use wireless_gateway.Gateway.Quiet.{
  Quiet, Quiet-trans, send_status-Quiet, forward_call-Quiet, confirm-Quiet,
}
use wireless_gateway.Gateway.Invariant.{
  Inv, Sound, AllSound, Inv, Follows, Follows-Sound, Follows-trans,
}

post-Follows :
    (queue : ℕ) (msg : Msg) (kept c : Call) (s : Server)
    → Follows c kept
    → Follows c (post queue msg kept c s).0
unfolding post
post-Follows queue msg kept c s f = ground arith

Follows-refl : (c : Call) → Follows c c
Follows-refl c = record { id = refl; fid = refl; session = inl refl }

post_copy-Follows :
    (queue : ℕ) (req : Option Text) (c : Call) (s : Server) → Follows c (post_copy queue req c s).0
unfolding post_copy
post_copy-Follows queue none c s = post-Follows _ _ c c s (Follows-refl c)
post_copy-Follows queue (some []) c s = post-Follows _ _ c c s (Follows-refl c)
post_copy-Follows queue (some (b ∷ bs)) c s = elim (Bool-cases (answer s.mallocs)) [
  | inl e ↦ rw e (post-Follows queue (message c (some (b ∷ bs))) c c (spend s) (Follows-refl c))
  | inr e ↦ rw e (Follows-refl c)
]

forward_call-Follows : (queue : ℕ) (c : Call) (s : Server) → Follows c (forward_call queue c s).0
unfolding forward_call
forward_call-Follows queue c s = elim (Bool-cases (answer s.mallocs)) [
  | inl e ↦ elim (Bool-cases (has_flag c.flags flag_long_term)) [
    | inl l ↦ rw (e, l) (post_copy-Follows queue c.req c (spend s))
    | inr l ↦
        rw (e, l)
          (post-Follows queue (message c c.req) (record c { req = none }) c (spend s)
            (record { id = refl; fid = refl; session = inl refl }))
  ]
  | inr e ↦ rw e (Follows-refl c)
]

confirm-Follows : (c : Call) (s : Server) → Follows c (confirm c s).0
unfolding confirm
confirm-Follows c s = ground arith

record PassInv (ss : List Session) (p : Pass) : Type 0 where
  same : p.server.sessions ≡ ss
  before : AllSound ss p.before
  behind : AllSound ss p.behind
  waiting : AllSound ss p.server.waiting

drop_matching-All :
    (ss : List Session) (test : Call → Bool) (cs : List Call)
    → AllSound ss cs
    → AllSound ss (drop_matching test cs)
drop_matching-All ss test [] h = tt
drop_matching-All ss test (c ∷ cs) h = elim (Bool-cases (test c)) [
  | inl e ↦ rw e (drop_matching-All ss test cs h.1)
  | inr e ↦ rw e (h.0, drop_matching-All ss test cs h.1)
]

-- A pass whose server has sent something since.
told-PassInv :
    (ss : List Session) (p : Pass) (t : Server)
    → Quiet p.server t
    → PassInv ss p
    → PassInv ss (record p { server = t })
told-PassInv ss p t q v = record {
  same = q.sessions ∙ v.same;
  before = v.before;
  behind = v.behind;
  waiting = rw q.waiting v.waiting;
}

delete_call-PassInv :
    (ss : List Session) (c : Call) (p : Pass) → PassInv ss p → PassInv ss (delete_call c p)
unfolding delete_call
delete_call-PassInv ss c p v = elim (Option-cases c.session) [
  | inl e ↦ rw (e, delete_call) told
  | inr (fd, e) ↦
      rw (e, delete_call)
        (record {
          same = told.same;
          before = drop_matching-All ss _ p.before told.before;
          behind = drop_matching-All ss _ p.behind told.behind;
          waiting = drop_matching-All ss _ _ told.waiting;
        })
]
  where
    told : PassInv ss (record p { server = (send_status c status_delivered p.server).0 })
    told = told-PassInv ss p _ (send_status-Quiet c status_delivered p.server) v

hand_over-PassInv :
    (ss : List Session) (queue : ℕ) (c : Call) (p : Pass)
    → Sound ss c
    → PassInv ss p
    → PassInv ss (hand_over queue c p)
unfolding hand_over
hand_over-PassInv ss queue c p k v = record {
  same = told.same;
  before = v.before;
  behind = v.behind;
  waiting = All-append (Sound ss) second.1.waiting (second.0 ∷ []) told.waiting (
    Follows-Sound c second.0
        (Follows-trans (forward_call-Follows queue c p.server) (confirm-Follows first.0 first.1)) k,
    tt,
  );
}
  where
    first : Call × Server
    first = forward_call queue c p.server

    second : Call × Server
    second = confirm first.0 first.1

    told : PassInv ss (record p { server = second.1 })
    told =
        told-PassInv ss p second.1
          (Quiet-trans (forward_call-Quiet queue c p.server) (confirm-Quiet first.0 first.1)) v

forward_one-PassInv :
    (ss : List Session) (now : ℕ) (c : Call) (p : Pass)
    → Sound ss c
    → PassInv ss p
    → PassInv ss (forward_one now c p)
forward_one-PassInv ss now c p k v = elim (Bool-cases (has_flag c.flags flag_to_delete)) [
  | inl d ↦ unfold forward_one in rw d (delete_call-PassInv ss c p v)
  | inr d ↦ elim (Bool-cases (is_throttled now c)) [
    | inl t ↦
        unfold forward_one in
        rw (d, t)
          (record {
            same = v.same;
            before = All-append (Sound ss) p.before (c ∷ []) v.before (k, tt);
            behind = v.behind;
            waiting = v.waiting;
          })
    | inr t ↦ elim (Option-cases (find_key c.fid p.server.fid_queues)) [
      | inl q ↦
          unfold forward_one in
          rw (d, t)
            (rw (q, forward_one)
              (told-PassInv ss p _ (send_status-Quiet c status_invalid p.server) v))
      | inr (queue, q) ↦
          unfold forward_one in rw (d, t) (rw (q, forward_one) (hand_over-PassInv ss queue c p k v))
    ]
  ]
]

-- The rounds of the loop as equations.
pub forward_loop-zero : (now : ℕ) (p : Pass) → forward_loop 0 now p ≡ p
unfolding forward_loop
forward_loop-zero now p = refl

pub forward_loop-nil : (fuel now : ℕ) (p : Pass) → p.behind ≡ [] → forward_loop (suc fuel) now p ≡ p
unfolding forward_loop
forward_loop-nil fuel now p e = ground arith

pub forward_loop-cons :
    (fuel now : ℕ) (p : Pass) (c : Call) (cs : List Call)
    → p.behind ≡ c ∷ cs
    → forward_loop (suc fuel) now p
      ≡ forward_loop fuel now (forward_one now c (record p { behind = cs }))
unfolding forward_loop
forward_loop-cons fuel now p c cs e = rw (e, forward_loop)

forward_loop-PassInv :
    (ss : List Session) (fuel now : ℕ) (p : Pass)
    → PassInv ss p
    → PassInv ss (forward_loop fuel now p)
forward_loop-PassInv ss zero now p v = rw (forward_loop-zero now p) v
forward_loop-PassInv ss (suc fuel) now p v = elim (List-cases p.behind) [
  | inl e ↦ rw (forward_loop-nil fuel now p e) v
  | inr (c, cs, e) ↦ rw (forward_loop-cons fuel now p c cs e) (
      forward_loop-PassInv ss fuel now (forward_one now c (record p { behind = cs })) (
        forward_one-PassInv ss now c (record p { behind = cs }) (subst (AllSound ss) e v.behind).0
          (record {
            same = v.same;
            before = v.before;
            behind = (subst (AllSound ss) e v.behind).1;
            waiting = v.waiting;
          })))
]

pub forward-Inv : (now : ℕ) (s : Server) → Inv s → Inv (forward now s)
unfolding forward
forward-Inv now s v = record {
  calls =
      rw last.same (All-append (Sound s.sessions) pass.before pass.behind last.before last.behind);
  waiting = rw last.same last.waiting;
}
  where
    pass : Pass
    pass = forward_loop (length s.calls) now (record { before = []; behind = s.calls; server = s })

    last : PassInv s.sessions pass
    last =
        forward_loop-PassInv s.sessions (length s.calls) now _
          (record { same = refl; before = tt; behind = v.calls; waiting = v.waiting })
