-- ===== src/SocketStore/Restored.antt =====
-- What the tasks that reconnect and restore sockets do to the adapters.
use d_hub.Base.{
  ℕ, String, ◌≡◌, refl, inl, inr, Bool, true, false, not, ◌||◌, [], ◌∷◌, ◌++◌, arith, Bool-cases,
  All, Exception, Result, ok, throw,
}
use d_hub.Base.Dict.{Dict}
use d_hub.SocketStore.{SocketAdapter, restore}

module _ (kind : SocketAdapter) (create_instance : ℕ → Result kind.Adapter) where
  -- An adapter of another kind, or one that is neither closed nor aborted.
  abbrev pub is_in_use : kind.Adapter → Bool
  is_in_use a = not (kind.is_octoprint a) || not (kind.is_closed_or_aborted a)

  -- If the request for the connection is answered for each printer, the restoring task returns, and
  -- afterwards no adapter of an OctoPrint printer is closed or aborted.
  pub restore-is_in_use :
      (now : ℕ) (c : String → Result (Unit {0})) (m : Dict kind.Adapter)
      → ((id : String) → c id ≡ ok tt)
      → (m' : Dict kind.Adapter) × (restore kind create_instance now c m ≡ (ok tt, m'))
        × All (λ e. is_in_use e.1 ≡ true) m'
  unfolding restore
  restore-is_in_use now c [] h = ([], refl, tt)
  restore-is_in_use now c ((id, a) ∷ m) h =
      let (m', e, k) = restore-is_in_use now c m h in
      let b = kind.reset_socket_state (kind.close a) in
      elim (Bool-cases (is_in_use a)) [
        | inl u ↦ ((id, a) ∷ m', ground (arith, u, e, h id), (u, k))
        | inr u ↦ (
          (id, b) ∷ m',
          ground (arith, u, e),
          (ground (arith, kind.is_closed_or_aborted-reset (kind.close a)), k),
        )
      ]

  -- An OctoPrint adapter that is silent, and neither closed nor aborted, and whose request is not
  -- answered ends the restoring task with the exception: where those before it need nothing, all
  -- adapters stay as they are, also those after it that are closed or aborted.
  pub restore_stops :
      (now : ℕ) (c : String → Result (Unit {0})) (id : String) (a : kind.Adapter)
      (m : Dict kind.Adapter) {e : Exception}
      → kind.is_octoprint a ≡ true
      → kind.is_closed_or_aborted a ≡ false
      → kind.is_silent now a ≡ true
      → c id ≡ throw e
      → (before : Dict kind.Adapter)
      → All (λ q. (kind.is_closed_or_aborted q.1 ≡ false) × (kind.is_silent now q.1 ≡ false)) before
      → restore kind create_instance now c (before ++ (id, a) ∷ m)
        ≡ (throw e, before ++ (id, a) ∷ m)
  unfolding restore
  restore_stops now c id a m o n s f [] h = ground (arith, o, n, s, f)
  restore_stops now c id a m {e} o n s f ((j, b) ∷ before) (g, h) =
      ground (arith, g, restore_stops now c id a m {e = e} o n s f before h)
