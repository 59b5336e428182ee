-- ===== src/Sdk/Agent/Lifecycle.antt =====
-- The connects, stops and registrations of an agent of pkg/agentsdk/agent.go.
use vantage_core.Prelude.{
  ℕ, suc, ◌+◌, ◌≤◌, ◌≡◌, refl, Bool, true, not, List, [], ◌∷◌, ◌++◌, Option, Str, map,
  if◌then◌else◌, arith,
}
use vantage_core.Sdk.Mqtt.{Publish, Client}
use vantage_core.Sdk.TaskManager.{TaskManager}
use vantage_core.Sdk.Agent.{
  Agent, EventPayload, Stamp, Moments, Hook, Call, publish, subscribe, disconnect, publish_event,
  on_connect, register, run_new_task_listener, run_hooks, handle_connect, stop, online, offline,
  registered, EventType, announce, attach,
}

pub data Happening : Type 0 where
  registers : Client → Happening
  hooks : Hook → Happening
  connects : Moments → Bool → Happening
  stops : Stamp → Happening

abbrev pub subscriptions : List Call → ℕ
subscriptions [] = 0
subscriptions (publish _ ∷ cs) = subscriptions cs
subscriptions (subscribe _ _ ∷ cs) = suc (subscriptions cs)
subscriptions (disconnect ∷ cs) = subscriptions cs

subscriptions-append :
    (xs ys : List Call) → subscriptions (xs ++ ys) ≡ subscriptions xs + subscriptions ys
subscriptions-append [] ys = omega arith
subscriptions-append (publish p ∷ xs) ys = subscriptions-append xs ys
subscriptions-append (subscribe t q ∷ xs) ys = omega (arith, subscriptions-append xs ys)
subscriptions-append (disconnect ∷ xs) ys = subscriptions-append xs ys

subscriptions_of_publishes : (ps : List Publish) → subscriptions (map publish ps) ≡ 0
subscriptions_of_publishes [] = refl
subscriptions_of_publishes (p ∷ ps) = subscriptions_of_publishes ps

subscriptions-run_hooks :
    (times : ℕ → ℕ) (n : ℕ) (c : Option Client) (fs : List Hook)
    → subscriptions (run_hooks times n c fs) ≡ 0
unfolding run_hooks
subscriptions-run_hooks times n c [] = refl
subscriptions-run_hooks times n c (f ∷ fs) = omega (
  arith,
  subscriptions-append (map publish (f (times n) c)) (run_hooks times (suc n) c fs),
  subscriptions_of_publishes (f (times n) c),
  subscriptions-run_hooks times (suc n) c fs,
)

abbrev pub one_if : Bool → ℕ
one_if b = if b then 1 else 0

module _ (marshal : EventPayload → Option Str) where
  pub after : Happening → Agent → Agent × List Call
  after (registers c) a = (register c a, [])
  after (hooks f) a = (on_connect f a, [])
  after (connects ms subscribed) a = handle_connect marshal ms subscribed a
  after (stops s) a = stop marshal s a

  pub run : List Happening → Agent → Agent × List Call
  run [] a = (a, [])
  run (h ∷ hs) a =
      let (a', calls) = after h a in let (end, rest) = run hs a' in (end, calls ++ rest)

  subscriptions-publish_event :
      (s : Stamp) (type : EventType) (reason payload : Str) (a : Agent)
      → subscriptions (publish_event marshal s type reason payload a).0 ≡ 0
  unfolding publish_event
  subscriptions-publish_event s type reason payload a = ground arith

  subscriptions-listener :
      (subscribed : Bool) (t : TaskManager)
      → subscriptions (run_new_task_listener subscribed t).0 ≤ 1
  unfolding run_new_task_listener
  subscriptions-listener subscribed t = ground arith

  subscriptions-announce :
      (s : Stamp) (subscribed : Bool) (a : Agent)
      → subscriptions (announce marshal s subscribed a).1
          + one_if (not (announce marshal s subscribed a).0.connected_once)
        ≤ one_if (not a.connected_once)
  subscriptions-announce s subscribed a =
      let a' = record a { connected_once = true } in
      let t = attach a.client a.task_manager in
      ground (
        arith,
        subscriptions-append (publish_event marshal s registered [] [] a').0
            (run_new_task_listener subscribed t).0,
        subscriptions-publish_event s registered [] [] a',
        subscriptions-listener subscribed t,
      )

  subscriptions-after :
      (h : Happening) (a : Agent)
      → subscriptions (after h a).1 + one_if (not (after h a).0.connected_once)
        ≤ one_if (not a.connected_once)
  unfolding after handle_connect stop on_connect register
  subscriptions-after (registers c) a = omega arith
  subscriptions-after (hooks f) a = omega arith
  subscriptions-after (connects ms subscribed) a =
      let online_calls = (publish_event marshal ms.on_online online [] [] a).0 in
      let calls = (announce marshal ms.on_registered subscribed a).1 in
      let hook_calls = run_hooks ms.times 0 a.client a.on_connect_funcs in
      omega (
        arith,
        subscriptions-append online_calls (calls ++ hook_calls),
        subscriptions-append calls hook_calls,
        subscriptions-publish_event ms.on_online online [] [] a,
        subscriptions-run_hooks ms.times 0 a.client a.on_connect_funcs,
        subscriptions-announce ms.on_registered subscribed a,
      )
  subscriptions-after (stops s) a =
      let offline_calls = (publish_event marshal s offline [] [] a).0 in
      ground (
        arith,
        subscriptions-append offline_calls (disconnect ∷ []),
        subscriptions-publish_event s offline [] [] a,
      )

  -- However often an agent is registered, connects and stops, with any hooks: it subscribes to its new
  -- tasks at most once, and not again if it has connected before.
  pub subscriptions-run :
      (hs : List Happening) (a : Agent)
      → subscriptions (run hs a).1 + one_if (not (run hs a).0.connected_once)
        ≤ one_if (not a.connected_once)
  unfolding run
  subscriptions-run [] a = omega arith
  subscriptions-run (h ∷ hs) a = omega (
    arith,
    subscriptions-append (after h a).1 (run hs (after h a).0).1,
    subscriptions-after h a,
    subscriptions-run hs (after h a).0,
  )
