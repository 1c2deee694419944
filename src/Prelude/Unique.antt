-- ===== src/Prelude/Unique.antt =====
-- Maps with one entry for each key, which `insert`, `remove` and `retain` keep; and the laws that
-- hold of such maps alone.
use Prim.Native.Nat.{◌≤◌, ◌<◌}
use Prim.Native.String.{String}
use mathlib.Core.Path.{◌≡◌, refl}
use mathlib.Core.Logic.{inl, inr}
use mathlib.Core.Bool.{Bool, true, false}
use mathlib.Core.Option.{none, some}
use mathlib.Core.List.{[], ◌∷◌}
use native.Mathlib.Omega.{arith}
use text.Mathlib.TextEquality.{eq_iff}
use ada_claw.Prelude.Tests.{Bool-cases}
use ada_claw.Prelude.Lists.{length, find}
use ada_claw.Prelude.Maps.{
  StrMap, lookup, insert, remove, retain, keep, values, str_eq, lookup-insert, lookup-remove,
}

module _ {ℓ} {V : Type ℓ} where
  abbrev pub UniqueKeys : StrMap V → Type ℓ
  UniqueKeys [] = Unit
  UniqueKeys ((k, v) ∷ m) = (lookup k m ≡ none) × UniqueKeys m

module _ {ℓ} {V : Type ℓ} where
  pub lookup-retain-none :
      (p : V → Bool) (k : String) (m : StrMap V) → lookup k m ≡ none → lookup k (retain p m) ≡ none
  unfolding lookup retain
  lookup-retain-none p k [] h = refl
  lookup-retain-none p k ((j, w) ∷ m) h = ground (arith, lookup-retain-none p k m)

  pub lookup-retain :
      (p : V → Bool) (k : String) (m : StrMap V)
      → UniqueKeys m
      → lookup k (retain p m) ≡ keep p (lookup k m)
  unfolding lookup retain
  lookup-retain p k [] u = refl
  lookup-retain p k ((j, w) ∷ m) u =
      ground (arith, eq_iff j k, lookup-retain p k m u.1, lookup-retain-none p j m u.0)

  pub insert-UniqueKeys :
      (k : String) (v : V) (m : StrMap V) → UniqueKeys m → UniqueKeys (insert k v m)
  unfolding insert
  insert-UniqueKeys k v [] u = (unfold lookup in refl, tt)
  insert-UniqueKeys k v ((j, w) ∷ m) u = elim (Bool-cases (str_eq j k)) [
    | inl same ↦ rw same (rw (← (eq_iff j k).0 same) u.0, u.1)
    | inr other ↦ rw other (
      ground (arith, lookup-insert k j v m, eq_iff j k, eq_iff k j, u.0),
      insert-UniqueKeys k v m u.1,
    )
  ]

  pub remove-UniqueKeys : (k : String) (m : StrMap V) → UniqueKeys m → UniqueKeys (remove k m)
  unfolding remove
  remove-UniqueKeys k [] u = tt
  remove-UniqueKeys k ((j, w) ∷ m) u = elim (Bool-cases (str_eq j k)) [
    | inl same ↦ rw same (remove-UniqueKeys k m u.1)
    | inr other ↦ rw other (ground (arith, lookup-remove k j m, u.0), remove-UniqueKeys k m u.1)
  ]

  pub retain-UniqueKeys : (p : V → Bool) (m : StrMap V) → UniqueKeys m → UniqueKeys (retain p m)
  unfolding retain
  retain-UniqueKeys p [] u = tt
  retain-UniqueKeys p ((j, w) ∷ m) u = elim (Bool-cases (p w)) [
    | inl kept ↦ rw kept (lookup-retain-none p j m u.0, retain-UniqueKeys p m u.1)
    | inr dropped ↦ rw dropped (retain-UniqueKeys p m u.1)
  ]

  length-remove-le : (k : String) (m : StrMap V) → length (remove k m) ≤ length m
  unfolding remove
  length-remove-le k [] = omega arith
  length-remove-le k ((j, w) ∷ m) = ground (arith, length-remove-le k m)

  pub length-remove-lt :
      (k : String) (m : StrMap V) {v : V} → lookup k m ≡ some v → length (remove k m) < length m
  unfolding lookup remove
  length-remove-lt k [] h = cc
  length-remove-lt k ((j, w) ∷ m) {v} h =
      ground (arith, length-remove-le k m, length-remove-lt k m {v = v})

  -- A test that no value passes fails at every key.
  pub find-none :
      (p : V → Bool) (m : StrMap V) (k : String) (v : V)
      → find p (values m) ≡ none
      → lookup k m ≡ some v
      → p v ≡ false
  unfolding lookup
  find-none p [] k v h e = cc
  find-none p ((j, w) ∷ m) k v h e = ground (arith, find-none p m k v)

  -- A value that `find` returns passes the test, and stands under some key.
  pub find-some :
      (p : V → Bool) (m : StrMap V) (v : V)
      → UniqueKeys m
      → find p (values m) ≡ some v
      → (k : String) × (lookup k m ≡ some v) × (p v ≡ true)
  unfolding lookup
  find-some p [] v u h = cc
  find-some p ((j, w) ∷ m) v u h = elim (Bool-cases (p w)) [
    | inl hit ↦ (j, ground (arith, eq_iff j j), ground arith)
    | inr miss ↦
        let (k, e, q) = find-some p m v u.1 (rw miss at h) in
        (k, ground (arith, eq_iff j k, u.0), q)
  ]
