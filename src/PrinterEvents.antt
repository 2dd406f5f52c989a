-- ===== src/PrinterEvents.antt =====
-- src/state/printer-events.cache.ts: the last message of each kind from each printer, in a key diff cache. A
-- payload is an object with properties of a type `V`. The line that is logged in debug mode is left out.
pub mod Lost
mod Tests
use d_hub.Base.{
  ℕ, ◌+◌, String, true, ◌||◌, ◌==◌, modify, Option, none, some, List, [], ◌∷◌, map, str_eq,
  if◌then◌else◌, ok, Prog, ◌>>=◌, ◌>>◌, pure,
}
use d_hub.Base.Dict.{Dict, lookup, insert, remove}
use d_hub.KeyDiff.{Cache, get_value, set_key_value, delete_key_value, delete_keys_batch}
use d_hub.KeyDiff.Keys.{Key}

module _ (V : Type 0) where
  abbrev pub Payload : Type 0
  Payload = Dict V

  -- What stands under a label: the message that `setEvent` puts there, and the properties that `setSubstate` adds.
  pub record Slot : Type 0 where
    pub payload : Option Payload
    pub received_at : Option ℕ
    pub substates : Dict (Payload × ℕ)

  -- `null` is `none`.
  abbrev pub Events : Type 0
  Events = Dict (Option Slot)

  -- The cache holds references: `heap` has the object of each, and `next` is the first that is not in use.
  pub record State : Type 0 where
    pub cache : Cache ℕ
    pub heap : ℕ → Events
    pub next : ℕ

module _ {V : Type 0} where
  abbrev pub no_events : Events V
  no_events =
      map (λ label. (label, none))
        ("connected" ∷ "reauthRequired" ∷ "notify_status_update" ∷ "current" ∷ "history"
          ∷ "API_STATE_UPDATED" ∷ "WS_CLOSED" ∷ "WS_ERROR" ∷ "WS_OPENED" ∷ "WS_STATE_UPDATED" ∷ [])

  abbrev pub in_cache : {A : Type 0} → Prog (Cache ℕ) A → Prog (State V) A
  in_cache m s = let (r, c) = m s.cache in (r, record s { cache = c })

  -- The object of a reference is changed in place.
  abbrev pub put : ℕ → Events V → (ℕ → Events V) → ℕ → Events V
  put ref events heap j = if j == ref then events else heap j

  -- `getOrCreateEvents` up to its first wait: the reference is looked up.
  unfoldable pub find_events : Key → Prog (State V) (Option ℕ)
  unfolding get_value
  find_events printer_id = in_cache (get_value printer_id)

  -- The rest of it: an object is made if there was none when it was looked up.
  unfoldable pub ensure_events : Key → Option ℕ → Prog (State V) ℕ
  unfolding set_key_value
  ensure_events printer_id (some ref) s = (ok ref, s)
  ensure_events printer_id none s =
      (do in_cache (set_key_value printer_id s.next true); pure s.next)
        (record s { heap = put s.next no_events s.heap; next = s.next + 1 })

  unfoldable pub get_or_create_events : Key → Prog (State V) ℕ
  unfolding find_events ensure_events
  get_or_create_events printer_id = do ref ← find_events printer_id; ensure_events printer_id ref

  abbrev pub message : Payload V → ℕ → Slot V
  message payload now = record { payload = some payload; received_at = some now; substates = [] }

  -- `setEvent` after its wait for the object.
  unfoldable pub write_event : Key → String → Payload V → ℕ → ℕ → Prog (State V) (Unit {0})
  unfolding set_key_value insert
  write_event printer_id label payload now ref = do
    modify (λ s. record s {
      heap = put ref (insert label (some (message payload now)) (s.heap ref)) s.heap;
    })
    in_cache (set_key_value printer_id ref true)

  unfoldable pub set_event : Key → String → Payload V → ℕ → Prog (State V) (Unit {0})
  unfolding get_or_create_events write_event
  set_event printer_id label payload now = do
    ref ← get_or_create_events printer_id
    write_event printer_id label payload now ref

  -- Two messages that come one directly after the other: the waits of their handlers take turns.
  unfoldable pub set_two_events :
      Key → String → Payload V → ℕ → String → Payload V → ℕ → Prog (State V) (Unit {0})
  unfolding find_events ensure_events write_event
  set_two_events printer_id label payload now label' payload' now' = do
    found ← find_events printer_id
    found' ← find_events printer_id
    ref ← ensure_events printer_id found
    ref' ← ensure_events printer_id found'
    write_event printer_id label payload now ref
    write_event printer_id label' payload' now' ref'

  -- The object under the label, made if there is none.
  abbrev slot_of : Option (Option (Slot V)) → Slot V
  slot_of (some (some slot)) = slot
  slot_of _ = record { payload = none; received_at = none; substates = [] }

  unfoldable pub set_substate : Key → String → String → Payload V → ℕ → Prog (State V) (Unit {0})
  unfolding get_or_create_events set_key_value insert lookup
  set_substate printer_id label name payload now = do
    ref ← get_or_create_events printer_id
    modify (λ s.
        let slot = slot_of (lookup label (s.heap ref)) in
        record s {
          heap =
              put ref
                (insert label
                  (some (record slot { substates = insert name (payload, now) slot.substates }))
                  (s.heap ref))
                s.heap;
        })
    in_cache (set_key_value printer_id ref true)

  unfoldable pub prune_history_payload : Payload V → Payload V
  unfolding remove
  prune_history_payload payload = remove "messages" (remove "temps" (remove "logs" payload))

  -- `plugin` and `event` messages are not kept.
  unfoldable pub on_octoprint_socket_message :
      Key → String → Payload V → ℕ → Prog (State V) (Unit {0})
  unfolding set_event prune_history_payload
  on_octoprint_socket_message printer_id label payload now =
      if str_eq label "plugin" || str_eq label "event"
      then pure tt
      else set_event printer_id label
          (if str_eq label "history" then prune_history_payload payload else payload) now

  unfoldable pub on_moonraker_socket_message :
      Key → String → Payload V → ℕ → Prog (State V) (Unit {0})
  unfolding set_event
  on_moonraker_socket_message printer_id label payload now =
      if str_eq label "notify_status_update" || str_eq label "current"
      then set_event printer_id label payload now
      else pure tt

  unfoldable pub events_printers_deleted : List Key → State V → State V
  unfolding delete_keys_batch
  events_printers_deleted printer_ids s = record s {
    cache = delete_keys_batch printer_ids true s.cache;
  }

  unfoldable pub delete_printer_socket_events : Key → Prog (State V) (Unit {0})
  unfolding delete_key_value
  delete_printer_socket_events printer_id = in_cache (delete_key_value printer_id true)
