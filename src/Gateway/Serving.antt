-- ===== src/Gateway/Serving.antt =====
-- What the first part of a worker's pass collects (ws_server/src/ws_server.c).
use wireless_gateway.Prelude.{
  ℕ, ◌≡◌, refl, sym, ap, ◌∙◌, List, [], ◌∷◌, ◌++◌, Option, none, some, arith, if◌then◌else◌,
}
use wireless_gateway.Gateway.State.{Call, Server, has_session}
use wireless_gateway.Gateway.Send.{send_frame}
use wireless_gateway.Gateway.Serve.{ping_session, serve_call, keep_some, serve_list, serve}

-- The calls that are not over.
abbrev pub going_on : List Call → List Call
going_on [] = []
going_on (c ∷ cs) = if has_session c.session then c ∷ going_on cs else going_on cs

-- Serving one call while the transport holds out.
record Kept (c : Call) (s : Server) (r : Option Call × Server) : Type 0 where
  kept : keep_some r.0 [] ≡ going_on (c ∷ [])
  sends : r.1.sends ≡ []
  same : r.1.waiting ≡ s.waiting

serve_call-Kept : (now : ℕ) (c : Call) (s : Server) → s.sends ≡ [] → Kept c s (serve_call now c s)
unfolding serve_call ping_session send_frame
serve_call-Kept now c s h = ground arith

record AllKept (cs : List Call) (s : Server) (r : List Call × Server) : Type 0 where
  kept : r.0 ≡ going_on cs
  sends : r.1.sends ≡ []
  same : r.1.waiting ≡ s.waiting

keep_some-append : (o : Option Call) (cs : List Call) → keep_some o cs ≡ keep_some o [] ++ cs
keep_some-append none cs = refl
keep_some-append (some c) cs = refl

going_on-cons : (c : Call) (cs : List Call) → going_on (c ∷ cs) ≡ going_on (c ∷ []) ++ going_on cs
going_on-cons c cs = ground arith

serve_list-AllKept :
    (now : ℕ) (cs : List Call) (s : Server) → s.sends ≡ [] → AllKept cs s (serve_list now cs s)
unfolding serve_list
serve_list-AllKept now [] s h = record { kept = refl; sends = h; same = refl }
serve_list-AllKept now (c ∷ cs) s h =
    let first = serve_call-Kept now c s h in
    let others = serve_list-AllKept now cs (serve_call now c s).1 first.sends in
    record {
      kept =
          keep_some-append (serve_call now c s).0 (serve_list now cs (serve_call now c s).1).0
          ∙ ap (λ k. k ++ (serve_list now cs (serve_call now c s).1).0) first.kept
          ∙ ap (λ k. going_on (c ∷ []) ++ k) others.kept
          ∙ sym (going_on-cons c cs);
      sends = others.sends;
      same = others.same ∙ first.same;
    }

-- While the transport holds out, serving frees exactly the calls that are over, in both lists, and keeps
-- all others as they are and in their order.
pub serve-going_on :
    (now : ℕ) (s : Server)
    → s.sends ≡ []
    → ((serve now s).calls ≡ going_on s.calls) × ((serve now s).waiting ≡ going_on s.waiting)
unfolding serve
serve-going_on now s h =
    let first = serve_list-AllKept now s.calls s h in
    let second = serve_list-AllKept now s.waiting (serve_list now s.calls s).1 first.sends in
    (first.kept, second.kept)
