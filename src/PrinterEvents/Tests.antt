-- ===== src/PrinterEvents/Tests.antt =====
-- Messages of a printer that the cache does not know.
use d_hub.Base.{ℕ, ◌≡◌, refl, none, some, [], ◌∷◌, ok, detached}
use d_hub.Base.Dict.{lookup}
use d_hub.KeyDiff.{empty}
use d_hub.KeyDiff.Keys.{string}
use d_hub.PrinterEvents.{
  State, Payload, no_events, message, set_two_events, on_octoprint_socket_message,
}
use d_hub.PrinterEvents.Lost.{slot_at, set_two_events_lem}

abbrev unknown : State ℕ
unknown = record { cache = empty; heap = λ j. no_events; next = 0 }

abbrev state_of : ℕ → Payload ℕ
state_of n = ("logs", 1) ∷ ("state", n) ∷ []

set_two_events_lem_example :
    (s' : State ℕ) × (set_two_events
        (string "1")
        "WS_STATE_UPDATED"
        (state_of 1)
        10
        "API_STATE_UPDATED"
        (state_of 2)
        11
        unknown
      ≡ (ok tt, s'))
    × (slot_at s' "1" "API_STATE_UPDATED" ≡ some (message (state_of 2) 11))
    × (slot_at s' "1" "WS_STATE_UPDATED" ≡ none)
unfolding lookup
set_two_events_lem_example =
    set_two_events_lem "1" refl "WS_STATE_UPDATED" "API_STATE_UPDATED" (state_of 1) (state_of 2) 10
      11 unknown refl

history_kept :
    slot_at
      (detached (on_octoprint_socket_message (string "1") "history" (state_of 14) 14) unknown)
      "1"
      "history"
    ≡ some (message (("state", 14) ∷ []) 14)
unfolding slot_at on_octoprint_socket_message d_hub.KeyDiff.Keys.key_string
history_kept = refl
