-- ===== src/Rpc/Lost.antt =====
-- src/shared/websocket-rpc-extended.adapter.ts: requests that are never settled.
use mathlib.Core.Path.{subst}
use d_hub.Base.{
  ℕ, ◌+◌, ◌≤◌, ◌<◌, String, ◌≡◌, refl, inl, inr, Bool, false, not, Option, none, some, List, [],
  ◌∷◌, ◌++◌, arith, ◌==◌, ==_iff, Bool-cases, Option-cases, find, any, any-append, any-keep-false,
}
use d_hub.Rpc.{
  Outcome, resolved, timed_out, Rpc, idle, at_first, at_second, drop_all, send_request,
  clear_request, fire_timer, on_rpc_message,
}

pub data Step : Type 0 where
  send : ℕ → Step
  fire : ℕ → Step
  receive : Option ℕ → String → Step

unfoldable pub run_step : Step → Rpc → Rpc
unfolding send_request fire_timer on_rpc_message
run_step (send k) = send_request k
run_step (fire p) = fire_timer p
run_step (receive k body) = on_rpc_message k body

unfoldable pub run_steps : List Step → Rpc → Rpc
unfolding run_step
run_steps [] s = s
run_steps (step ∷ steps) s = run_steps steps (run_step step s)

-- Nothing that would settle the promise is there, and it is not settled.
pub record IsAbsent (p : ℕ) (s : Rpc) : Type 0 where
  pub unmapped : any (at_second p) s.request_map ≡ false
  pub untimed : any (at_first p) s.timers ≡ false
  pub unsettled : any (at_first p) s.settled ≡ false

find-unmapped :
    (p k : ℕ) (rs : List (ℕ × ℕ)) {r : ℕ × ℕ}
    → any (at_second p) rs ≡ false
    → find (at_first k) rs ≡ some r
    → (r.1 == p) ≡ false
find-unmapped p k [] h e = absurd (cc)
find-unmapped p k (x ∷ xs) {r} h e = ground (arith, h, e, find-unmapped p k xs {r = r})

find-untimed :
    (p q : ℕ) (ts : List (ℕ × ℕ)) {t : ℕ × ℕ}
    → any (at_first p) ts ≡ false
    → find (at_first q) ts ≡ some t
    → (q == p) ≡ false
find-untimed p q [] h e = absurd (cc)
find-untimed p q (x ∷ xs) {t} h e =
    ground (arith, h, e, find-untimed p q xs {t = t}, ==_iff x.0 q, ==_iff q p, ==_iff x.0 p)

any-drop_all_same : {A : Type 0} (q : A → Bool) (xs : List A) → any q (drop_all q xs) ≡ false
any-drop_all_same q [] = refl
any-drop_all_same q (x ∷ xs) = ground (arith, any-drop_all_same q xs)

send-IsAbsent :
    (p k : ℕ) (s : Rpc)
    → (s.next_promise == p) ≡ false
    → IsAbsent p s
    → IsAbsent p (send_request k s)
unfolding send_request
send-IsAbsent p k s n i = record {
  unmapped =
      ground (
        arith,
        n,
        i.unmapped,
        any-keep-false (at_second p) (λ x. not (at_first k x)) s.request_map,
      );
  untimed = ground (arith, n, i.untimed);
  unsettled = i.unsettled;
}

clear-IsAbsent : (p k : ℕ) (s : Rpc) → IsAbsent p s → IsAbsent p (clear_request k s)
unfolding clear_request
clear-IsAbsent p k s i = go (find (at_first k) s.request_map)
  where
    go :
        (o : Option (ℕ × ℕ))
        → IsAbsent p (elim o [
          | none ↦ s
          | some request ↦ record s {
            timers = drop_all (at_first request.1) s.timers;
            request_map = drop_all (at_first k) s.request_map;
          }
        ])
    go none = i
    go (some r) = record {
      unmapped = any-keep-false (at_second p) (λ x. not (at_first k x)) s.request_map i.unmapped;
      untimed = any-keep-false (at_first p) (λ x. not (at_first r.1 x)) s.timers i.untimed;
      unsettled = i.unsettled;
    }

-- One more promise is settled.
settle-IsAbsent :
    (p q : ℕ) (o : Outcome) (s : Rpc)
    → (q == p) ≡ false
    → IsAbsent p s
    → IsAbsent p (record s { settled = s.settled ++ (q, o) ∷ [] })
settle-IsAbsent p q o s n i = record {
  unmapped = i.unmapped;
  untimed = i.untimed;
  unsettled = ground (arith, n, i.unsettled, any-append (at_first p) s.settled ((q, o) ∷ []));
}

fire-IsAbsent : (p q : ℕ) (s : Rpc) → IsAbsent p s → IsAbsent p (fire_timer q s)
unfolding fire_timer
fire-IsAbsent p q s i = elim (Option-cases (find (at_first q) s.timers)) [
  | inl e ↦ subst (λ s. IsAbsent p s) (ground (arith, e)) i
  | inr (t, e) ↦
      let s1 = record s { timers = drop_all (at_first q) s.timers } in
      subst (λ s. IsAbsent p s) (ground (arith, e))
        (settle-IsAbsent p q timed_out (clear_request t.1 s1)
          (find-untimed p q s.timers i.untimed e)
          (clear-IsAbsent p t.1 s1 (record {
            unmapped = i.unmapped;
            untimed = any-keep-false (at_first p) (λ x. not (at_first q x)) s.timers i.untimed;
            unsettled = i.unsettled;
          })))
]

event-IsAbsent :
    (p : ℕ) (body : String) (s : Rpc)
    → IsAbsent p s
    → IsAbsent p (record s { event_messages = s.event_messages ++ body ∷ [] })
event-IsAbsent p body s i = record {
  unmapped = i.unmapped;
  untimed = i.untimed;
  unsettled = i.unsettled;
}

receive-IsAbsent :
    (p : ℕ) (k : Option ℕ) (body : String) (s : Rpc)
    → IsAbsent p s
    → IsAbsent p (on_rpc_message k body s)
unfolding on_rpc_message
receive-IsAbsent p none body s i = record {
  unmapped = i.unmapped;
  untimed = i.untimed;
  unsettled = i.unsettled;
}
receive-IsAbsent p (some k) body s i = elim (Bool-cases (k == 0)) [
  | inl z ↦ subst (λ s. IsAbsent p s) (ground (arith, z)) (event-IsAbsent p body s i)
  | inr z ↦ elim (Option-cases (find (at_first k) s.request_map)) [
    | inl e ↦ subst (λ s. IsAbsent p s) (ground (arith, z, e)) i
    | inr (r, e) ↦
        let s1 = record s {
          timers = drop_all (at_first r.1) s.timers;
          request_map = drop_all (at_first k) s.request_map;
        } in
        subst (λ s. IsAbsent p s) (ground (arith, z, e))
          (settle-IsAbsent p r.1 (resolved body) s1 (find-unmapped p k s.request_map i.unmapped e)
            (record {
              unmapped =
                  any-keep-false (at_second p) (λ x. not (at_first k x)) s.request_map i.unmapped;
              untimed = any-keep-false (at_first p) (λ x. not (at_first r.1 x)) s.timers i.untimed;
              unsettled = i.unsettled;
            }))
  ]
]

step-IsAbsent :
    (p : ℕ) (step : Step) (s : Rpc)
    → (s.next_promise == p) ≡ false
    → IsAbsent p s
    → IsAbsent p (run_step step s)
unfolding run_step
step-IsAbsent p (send k) s n i = send-IsAbsent p k s n i
step-IsAbsent p (fire q) s n i = fire-IsAbsent p q s i
step-IsAbsent p (receive k body) s n i = receive-IsAbsent p k body s i

-- The number of promises never falls.
step-grows : (step : Step) (s : Rpc) → s.next_promise ≤ (run_step step s).next_promise
unfolding run_step send_request fire_timer clear_request on_rpc_message
step-grows (send k) s = ground (arith)
step-grows (fire q) s = ground (arith)
step-grows (receive k body) s = ground (arith)

-- A promise that was made and that nothing is left to settle is never settled.
pub steps-IsAbsent :
    (steps : List Step) (p : ℕ) (s : Rpc)
    → p < s.next_promise
    → IsAbsent p s
    → IsAbsent p (run_steps steps s)
unfolding run_steps
steps-IsAbsent [] p s h i = i
steps-IsAbsent (step ∷ steps) p s h i =
    steps-IsAbsent steps p (run_step step s) (omega (arith, h, step-grows step s))
      (step-IsAbsent p step s (ground (arith, h)) i)

-- No promise is there before it is made.
IsFresh : Rpc → Type 0
IsFresh s = (p : ℕ) → s.next_promise ≤ p → IsAbsent p s

step-IsFresh : (step : Step) (s : Rpc) → IsFresh s → IsFresh (run_step step s)
unfolding IsFresh run_step send_request
step-IsFresh (send k) s f p h = send-IsAbsent p k s (ground (arith, h)) (f p (omega (arith, h)))
step-IsFresh (fire q) s f p h = fire-IsAbsent p q s (f p (omega (arith, h, step-grows (fire q) s)))
step-IsFresh (receive k body) s f p h =
    receive-IsAbsent p k body s (f p (omega (arith, h, step-grows (receive k body) s)))

steps-IsFresh : (steps : List Step) (s : Rpc) → IsFresh s → IsFresh (run_steps steps s)
unfolding run_steps
steps-IsFresh [] s f = f
steps-IsFresh (step ∷ steps) s f = steps-IsFresh steps (run_step step s) (step-IsFresh step s f)

idle-IsFresh : IsFresh idle
unfolding IsFresh
idle-IsFresh p h = record { unmapped = refl; untimed = refl; unsettled = refl }

-- After the timer of the first of two requests with one id has fired, nothing is left of the second.
overwritten-IsAbsent :
    (k : ℕ) (s : Rpc)
    → IsFresh s
    → let p = s.next_promise in IsAbsent (p + 1) (fire_timer p (send_request k (send_request k s)))
unfolding IsFresh fire_timer send_request clear_request
overwritten-IsAbsent k s f =
    let p = s.next_promise in
    let i = f (p + 1) (omega (arith)) in
    let s2 = send_request k (send_request k s) in
    let s3 = record s2 { timers = drop_all (at_first p) s2.timers } in
    let s4 = record s3 {
      timers = drop_all (at_first (p + 1)) s3.timers;
      request_map = drop_all (at_first k) s3.request_map;
    } in
    let rest = drop_all (at_first k) s.request_map in
    let free =
      any-keep-false (at_second (p + 1)) (λ x. not (at_first k x)) s.request_map i.unmapped in
    let freer = any-keep-false (at_second (p + 1)) (λ x. not (at_first k x)) rest free in
    let freest =
      any-keep-false (at_second (p + 1)) (λ x. not (at_first k x)) (drop_all (at_first k) rest)
        freer in
    subst (λ s. IsAbsent (p + 1) s) (ground (arith))
      (settle-IsAbsent (p + 1) p timed_out s4 (ground (arith)) (record {
        unmapped = ground (arith, freest);
        untimed = any-drop_all_same (at_first (p + 1)) s3.timers;
        unsettled = i.unsettled;
      }))

-- After any steps, a request is sent, another with the same id follows, and the timer of the first
-- fires. Then, whatever messages come, whatever is sent and whichever timers fire, the second
-- request is never settled.
pub second_request_lost :
    (before after : List Step) (k : ℕ)
    → let s = run_steps before idle in
      any
        (at_first (s.next_promise + 1))
        (run_steps after (fire_timer s.next_promise (send_request k (send_request k s)))).settled
      ≡ false
unfolding run_step send_request
second_request_lost before after k =
    let s = run_steps before idle in
    let p = s.next_promise in
    (steps-IsAbsent after (p + 1) (fire_timer p (send_request k (send_request k s)))
      (omega (arith, step-grows (fire p) (send_request k (send_request k s))))
      (overwritten-IsAbsent k s (steps-IsFresh before idle idle-IsFresh))).unsettled
