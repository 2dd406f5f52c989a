-- ===== src/Base/Dict.antt =====
-- A JavaScript object used as a dictionary: an association list under texts, oldest entry first.
-- `Object.keys` puts keys that look like integers first; here the order is that of insertion.
use Prim.Native.String.{String}
use mathlib.Core.Path.{◌≡◌}
use mathlib.Core.Option.{Option, none, some}
use mathlib.Core.List.{List, [], ◌∷◌}
use native.Mathlib.Omega.{arith}
unfoldable use text.Mathlib.Text.{◌==◌ as str_eq}
use text.Mathlib.TextEquality.{eq_iff as str_eq_iff}
use mathlib.Core.Bool.{not}
use d_hub.Base.Lists.{keep}
use d_hub.Base.Tests.{if◌then◌else◌}

abbrev pub Dict {ℓ} : Type ℓ → Type ℓ
Dict V = List (String × V)

module _ {ℓ} {V : Type ℓ} where
  unfoldable pub lookup : String → Dict V → Option V
  lookup key [] = none
  lookup key (entry ∷ dict) = if str_eq entry.0 key then some entry.1 else lookup key dict

  unfoldable pub insert : String → V → Dict V → Dict V
  insert key value [] = (key, value) ∷ []
  insert key value (entry ∷ dict) =
      if str_eq entry.0 key then (key, value) ∷ dict else entry ∷ insert key value dict

  -- `delete o[k]`
  unfoldable pub remove : String → Dict V → Dict V
  remove key = keep (λ entry. not (str_eq entry.0 key))

  pub lookup-insert :
      (key other : String) (value : V) (dict : Dict V)
      → lookup other (insert key value dict)
        ≡ (if str_eq key other then some value else lookup other dict)
  unfolding lookup insert
  lookup-insert key other value [] = ground arith
  lookup-insert key other value (entry ∷ dict) = ground (
    arith,
    lookup-insert key other value dict,
    str_eq_iff entry.0 other,
    str_eq_iff entry.0 key,
    str_eq_iff key other,
  )

  pub lookup-remove :
      (key other : String) (dict : Dict V)
      → lookup other (remove key dict) ≡ (if str_eq key other then none else lookup other dict)
  unfolding lookup remove
  lookup-remove key other [] = ground arith
  lookup-remove key other (entry ∷ dict) = ground (
    arith,
    lookup-remove key other dict,
    str_eq_iff entry.0 other,
    str_eq_iff entry.0 key,
    str_eq_iff key other,
  )
