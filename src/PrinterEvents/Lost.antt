-- ===== src/PrinterEvents/Lost.antt =====
-- src/state/printer-events.cache.ts: two messages whose handlers take turns.
use d_hub.Base.{
  ℕ, ◌+◌, String, ◌≡◌, refl, ap, ◌∙◌, inl, inr, true, false, Option, none, some, List, [], ◌∷◌, map,
  arith, str_eq, str_eq_refl, ==_iff, if◌then◌else◌, Option-cases, is_some, ok, detached,
}
use d_hub.Base.Dict.{lookup, insert, lookup-insert}
use d_hub.KeyDiff.{Cache, get_value, set_key_value}
use d_hub.KeyDiff.Stored.{lookup-set_string}
use d_hub.KeyDiff.Keys.{string, key_string}
use d_hub.PrinterEvents.{
  Payload, Slot, Events, State, no_events, put, find_events, ensure_events, message, write_event,
  set_two_events,
}

usable : (i : String) → str_eq i "" ≡ false → key_string (string i) ≡ some i
unfolding key_string
usable i h = ground (arith, h)

abbrev stored : String → ℕ → Cache ℕ → Cache ℕ
unfolding set_key_value
stored i ref c = detached (set_key_value (string i) ref true) c

module _ {V : Type 0} where
  flat : Option (Option (Slot V)) → Option (Slot V)
  flat none = none
  flat (some slot) = slot

  at_ref : (ℕ → Events V) → String → Option ℕ → Option (Slot V)
  unfolding flat lookup
  at_ref heap label none = none
  at_ref heap label (some ref) = flat (lookup label (heap ref))

  -- What a reader finds for a printer under a label.
  unfoldable pub slot_at : State V → String → String → Option (Slot V)
  unfolding at_ref lookup
  slot_at s id label = at_ref s.heap label (lookup id s.cache.key_value_store)

  flat-nulls :
      (label : String) (ls : List String) → flat (lookup label (map (λ l. (l, none)) ls)) ≡ none
  unfolding flat lookup
  flat-nulls label [] = refl
  flat-nulls label (l ∷ ls) = ground (arith, flat-nulls label ls)

  flat-no_events : (label : String) → flat (lookup label no_events) ≡ none
  flat-no_events label = flat-nulls label (
      "connected" ∷ "reauthRequired" ∷ "notify_status_update" ∷ "current" ∷ "history"
      ∷ "API_STATE_UPDATED" ∷ "WS_CLOSED" ∷ "WS_ERROR" ∷ "WS_OPENED" ∷ "WS_STATE_UPDATED" ∷ [])

  flat-insert :
      (k label : String) (slot : Slot V) (events : Events V)
      → flat (lookup label (insert k (some slot) events))
        ≡ (if str_eq k label then some slot else flat (lookup label events))
  unfolding flat
  flat-insert k label slot events = ground (arith, lookup-insert k label (some slot) events)

  -- The two states that the steps below leave.
  abbrev made : String → State V → State V
  unfolding stored
  made i s = record {
    cache = stored i s.next s.cache;
    heap = put s.next no_events s.heap;
    next = s.next + 1;
  }

  abbrev written : String → String → Slot V → ℕ → State V → State V
  unfolding stored insert
  written i label slot ref s = record s {
    cache = stored i ref s.cache;
    heap = put ref (insert label (some slot) (s.heap ref)) s.heap;
  }

  module _ (i : String) (usable_id : str_eq i "" ≡ false) where
    find_lem : (s : State V) → find_events (string i) s ≡ (ok (lookup i s.cache.key_value_store), s)
    unfolding find_events get_value
    find_lem s = ground (arith, usable i usable_id)

    ensure_none : (s : State V) → ensure_events (string i) none s ≡ (ok s.next, made i s)
    unfolding ensure_events set_key_value
    ensure_none s = ground (arith, usable i usable_id)

    write_lem :
        (label : String) (payload : Payload V) (now ref : ℕ) (s : State V)
        → write_event (string i) label payload now ref s
          ≡ (ok tt, written i label (message payload now) ref s)
    unfolding write_event set_key_value
    write_lem label payload now ref s = ground (arith, usable i usable_id)

    slot_at-written :
        (k label : String) (slot : Slot V) (ref : ℕ) (s : State V)
        → slot_at (written i k slot ref s) i label
          ≡ (if str_eq k label then some slot else flat (lookup label (s.heap ref)))
    unfolding slot_at at_ref written stored
    slot_at-written k label slot ref s =
        ap (at_ref (written i k slot ref s).heap label)
          (lookup-set_string i ref s.cache i usable_id ∙ found_self)
        ∙ ground (arith, ==_iff ref ref, flat-insert k label slot (s.heap ref))
      where
        found_self : (if str_eq i i then some ref else lookup i s.cache.key_value_store) ≡ some ref
        found_self = ground (arith, str_eq_refl i)

    module _ (k l : String) (p q : Payload V) (now later : ℕ) (s : State V) where
      two_known :
          {ref : ℕ}
          → lookup i s.cache.key_value_store ≡ some ref
          → set_two_events (string i) k p now l q later s
            ≡ (ok tt, written i l (message q later) ref (written i k (message p now) ref s))
      unfolding set_two_events ensure_events
      two_known {ref} e = ground (
        arith,
        e,
        find_lem s,
        write_lem k p now ref s,
        write_lem l q later ref (written i k (message p now) ref s),
      )

      two_new :
          lookup i s.cache.key_value_store ≡ none
          → set_two_events (string i) k p now l q later s ≡ (
            ok tt,
            written i l
                (message q later)
                (s.next + 1)
                (written i k (message p now) s.next (made i (made i s))),
          )
      unfolding set_two_events
      two_new e = ground (
        arith,
        e,
        find_lem s,
        ensure_none s,
        ensure_none (made i s),
        write_lem k p now s.next (made i (made i s)),
        write_lem l q later (s.next + 1) (written i k (message p now) s.next (made i (made i s))),
      )

      -- Of two messages with different labels of a printer with an id, the second directly after the first, the
      -- cache keeps the second; it keeps the first exactly if it had an object for the printer before, and else
      -- there is nothing under the label of the first.
      pub set_two_events_lem :
          str_eq l k ≡ false
          → (s' : State V) × (set_two_events (string i) k p now l q later s ≡ (ok tt, s'))
            × (slot_at s' i l ≡ some (message q later))
            × (slot_at s' i k ≡ (
                if is_some (lookup i s.cache.key_value_store) then some (message p now) else none))
      unfolding written made stored
      set_two_events_lem h = elim (Option-cases (lookup i s.cache.key_value_store)) [
        | inr (ref, e) ↦
            let s1 = written i k (message p now) ref s in
            (
              written i l (message q later) ref s1,
              two_known e,
              slot_at-written l l (message q later) ref s1 ∙ ground (arith, str_eq_refl l),
              slot_at-written l k (message q later) ref s1
                  ∙ ground (
                    arith,
                    h,
                    e,
                    ==_iff ref ref,
                    str_eq_refl k,
                    flat-insert k k (message p now) (s.heap ref),
                  ),
            )
        | inl e ↦
            let s1 = written i k (message p now) s.next (made i (made i s)) in
            (
              written i l (message q later) (s.next + 1) s1,
              two_new e,
              slot_at-written l l (message q later) (s.next + 1) s1 ∙ ground (arith, str_eq_refl l),
              slot_at-written l k (message q later) (s.next + 1) s1
                  ∙ ground (arith, h, e, flat-no_events k),
            )
      ]
