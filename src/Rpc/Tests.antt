-- ===== src/Rpc/Tests.antt =====
-- Requests, answers and timers.
-- A request that is answered in time is resolved, and its timer does nothing then.
use d_hub.Base.{◌+◌, ◌≡◌, refl, false, some, [], ◌∷◌, any}
use d_hub.Rpc.{resolved, idle, at_first, send_request, fire_timer}
use d_hub.Rpc.Lost.{send, fire, receive, run_steps, second_request_lost}

answered_in_time :
    (run_steps (send 1 ∷ receive (some 1) "ok" ∷ fire 0 ∷ []) idle).settled
    ≡ (0, resolved "ok") ∷ []
unfolding run_steps
answered_in_time = refl

second_request_lost_example :
    let s = run_steps (send 1 ∷ receive (some 1) "ok" ∷ []) idle in
    any
      (at_first (s.next_promise + 1))
      (run_steps
        (receive (some 1) "late" ∷ fire 2 ∷ [])
        (fire_timer s.next_promise (send_request 1 (send_request 1 s)))).settled
    ≡ false
second_request_lost_example =
    second_request_lost (send 1 ∷ receive (some 1) "ok" ∷ [])
      (receive (some 1) "late" ∷ fire 2 ∷ []) 1
