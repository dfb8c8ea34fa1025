-- ===== src/Prelude/Maps.antt =====
-- A JavaScript `Map` whose keys are strings, as the list of its entries in insertion order.

use mathlib.Core.Path.{◌≡◌, refl}
use mathlib.Core.Bool.{Bool}
use mathlib.Core.List.{List, [], ◌∷◌}
use mathlib.Core.Option.{Option, none, some}
use native.Mathlib.Omega.{arith}
use modem_sms_gateway.Prelude.Tests.{if◌then◌else◌, is_some}
use modem_sms_gateway.Prelude.Text.{Str, str_eq, str_eq_refl, str_eq_sound}

module _ {ℓ} {V : Type ℓ} where
  unfoldable pub map_get : List (Str × V) → Str → Option V
  unfolding str_eq
  map_get [] k = none
  map_get ((j, v) ∷ m) k = if str_eq j k then some v else map_get m k

  unfoldable pub map_has : List (Str × V) → Str → Bool
  unfolding map_get
  map_has m k = is_some (map_get m k)

  unfoldable pub map_set : List (Str × V) → Str → V → List (Str × V)
  unfolding str_eq
  map_set [] k v = (k, v) ∷ []
  map_set ((j, w) ∷ m) k v = if str_eq j k then (j, v) ∷ m else (j, w) ∷ map_set m k v

  -- A later read gives what was written last under the key.
  pub map_get-set :
      (m : List (Str × V)) (k j : Str) (v : V)
      → map_get (map_set m k v) j ≡ (if str_eq k j then some v else map_get m j)
  unfolding map_get map_set
  map_get-set [] k j v = refl
  map_get-set ((i, w) ∷ m) k j v = ground (
    arith,
    str_eq_sound i k,
    str_eq_sound i j,
    str_eq_sound k j,
    str_eq_refl k,
    str_eq_refl j,
    str_eq_refl i,
    map_get-set m k j v,
  )
