-- ===== src/Rpc.antt =====
-- src/shared/websocket-rpc-extended.adapter.ts: requests over a web socket and the answers to them. A promise
-- is a number, in the order in which they are made; the socket and the clock are not part of the program:
-- messages and the firing of a timer are steps.
pub mod Lost
mod Tests
use d_hub.Base.{
  ℕ, ◌+◌, String, Bool, not, Option, none, some, List, [], ◌∷◌, ◌++◌, ◌==◌, if◌then◌else◌, keep,
  find,
}

pub data Outcome : Type 0 where
  resolved : String → Outcome
  timed_out : Outcome

pub record Rpc : Type 0 where
  -- The promise of each id of a request, and those whose timer is set, with their id.
  pub request_map : List (ℕ × ℕ)
  pub timers : List (ℕ × ℕ)
  pub settled : List (ℕ × Outcome)
  pub next_promise : ℕ
  pub sent : List ℕ
  -- What `onEventMessage` gets.
  pub event_messages : List String

abbrev pub idle : Rpc
idle = record {
  request_map = [];
  timers = [];
  settled = [];
  next_promise = 0;
  sent = [];
  event_messages = [];
}

-- The tests of an entry by its first and by its second number.
abbrev pub at_first : {A : Type 0} → ℕ → ℕ × A → Bool
at_first k entry = entry.0 == k

abbrev pub at_second : ℕ → ℕ × ℕ → Bool
at_second p entry = entry.1 == p

abbrev pub drop_all : {A : Type 0} → (A → Bool) → List A → List A
drop_all p = keep (λ x. not (p x))

-- `request.id = request.id++` leaves the id as it was. `Map.set` takes the place of an entry with that id.
unfoldable pub send_request : ℕ → Rpc → Rpc
send_request k s = record s {
  request_map = (k, s.next_promise) ∷ drop_all (at_first k) s.request_map;
  timers = (s.next_promise, k) ∷ s.timers;
  next_promise = s.next_promise + 1;
  sent = s.sent ++ k ∷ [];
}

unfoldable pub clear_request : ℕ → Rpc → Rpc
clear_request k s = elim (find (at_first k) s.request_map) [
  | none ↦ s
  | some request ↦ record s {
    timers = drop_all (at_first request.1) s.timers;
    request_map = drop_all (at_first k) s.request_map;
  }
]

-- The timer of a promise fires, if it is set.
unfoldable pub fire_timer : ℕ → Rpc → Rpc
unfolding clear_request
fire_timer p s = elim (find (at_first p) s.timers) [
  | none ↦ s
  | some timer ↦
      let s' = clear_request timer.1 (record s { timers = drop_all (at_first p) s.timers }) in
      record s' { settled = s'.settled ++ (p, timed_out) ∷ [] }
]

-- A message without an id, or with the id 0, is an event.
unfoldable pub on_rpc_message : Option ℕ → String → Rpc → Rpc
on_rpc_message none body s = record s { event_messages = s.event_messages ++ body ∷ [] }
on_rpc_message (some k) body s =
    if k == 0
    then record s { event_messages = s.event_messages ++ body ∷ [] }
    else elim (find (at_first k) s.request_map) [
      | none ↦ s
      | some request ↦ record s {
        timers = drop_all (at_first request.1) s.timers;
        settled = s.settled ++ (request.1, resolved body) ∷ [];
        request_map = drop_all (at_first k) s.request_map;
      }
    ]
