-- ===== src/Base/Maps.antt =====
-- Go maps with string keys, as association lists in which no key stands twice. The order in which
-- `range` visits a map is left open wherever the program ranges over one.
use mathlib.Core.Path.{◌≡◌, refl}
use mathlib.Core.Bool.{Bool, false, ◌&&◌}
use mathlib.Core.Option.{Option, none, some}
use mathlib.Core.List.{List, [], ◌∷◌}
use native.Mathlib.Omega.{arith}
use clickhouse_backup.Base.Tests.{if◌then◌else◌}
use clickhouse_backup.Base.Lists.{any}
use clickhouse_backup.Base.Texts.{Text, ◌==◌, ==_iff}

module _ {ℓ} {V : Type ℓ} where
  -- `m[k]`, with `none` where the key is missing.
  unfoldable pub lookup : Text → List (Text × V) → Option V
  lookup k [] = none
  lookup k ((j, v) ∷ m) = if j == k then some v else lookup k m

  -- `m[k] = v`
  unfoldable pub map_set : Text → V → List (Text × V) → List (Text × V)
  map_set k v [] = (k, v) ∷ []
  map_set k v ((j, w) ∷ m) =
      let rest = (j, w) ∷ map_set k v m in if j == k then (k, v) ∷ m else rest

  abbrev pub NodupKeys : List (Text × V) → Type ℓ
  NodupKeys [] = Unit
  NodupKeys ((k, _) ∷ m) = (lookup k m ≡ none) × NodupKeys m

  pub lookup-map_set :
      (k j : Text) (v : V) (m : List (Text × V))
      → lookup j (map_set k v m) ≡ (if k == j then some v else lookup j m)
  unfolding lookup map_set
  lookup-map_set k j v [] = refl
  lookup-map_set k j v ((i, w) ∷ m) =
      ground (arith, ==_iff k j, ==_iff i k, ==_iff i j, lookup-map_set k j v m)

  pub map_set-NodupKeys :
      (k : Text) (v : V) (m : List (Text × V)) → NodupKeys m → NodupKeys (map_set k v m)
  unfolding lookup map_set
  map_set-NodupKeys k v [] u = (refl, tt)
  map_set-NodupKeys k v ((j, w) ∷ m) u =
      ground (arith, ==_iff j k, ==_iff k j, lookup-map_set k j v m, map_set-NodupKeys k v m u.1)

  abbrev pub holds : (V → Bool) → Option V → Bool
  holds p none = false
  holds p (some v) = p v

  -- What `m` holds at a key is what the one entry of that key holds.
  pub any-lookup :
      (k : Text) (p : V → Bool) (m : List (Text × V))
      → NodupKeys m
      → any m (λ e. e.0 == k && p e.1) ≡ holds p (lookup k m)
  unfolding lookup
  any-lookup k p [] u = refl
  any-lookup k p ((j, v) ∷ m) u = ground (arith, ==_iff j k, any-lookup k p m u.1)
