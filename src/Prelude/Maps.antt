-- ===== src/Prelude/Maps.antt =====
-- Rust's `HashMap<String, V>` and `HashSet<String>`: an association list with one entry for a key,
-- and a list of names. Every law is in `if` form, so it has no side condition.
use Prim.Native.String.{String}
use mathlib.Core.Path.{◌≡◌, refl}
use mathlib.Core.Bool.{Bool, true, false, not, ◌&&◌, ◌||◌}
use mathlib.Core.Option.{Option, none, some}
use mathlib.Core.List.{List, [], ◌∷◌}
use native.Mathlib.Omega.{arith}
use text.Mathlib.Text.{◌==◌ as ◌==◌}
use text.Mathlib.TextEquality.{eq_iff}
use ada_claw.Prelude.Tests.{if◌then◌else◌, is_some}

abbrev pub str_eq : String → String → Bool
str_eq s t = s == t

abbrev pub StrMap {ℓ} : Type ℓ → Type ℓ
StrMap V = List (String × V)

module _ {ℓ} {V : Type ℓ} where
  -- `HashMap::get`.
  unfoldable pub lookup : String → StrMap V → Option V
  lookup key [] = none
  lookup key (entry ∷ rest) = if str_eq entry.0 key then some entry.1 else lookup key rest

  -- `HashMap::insert`, which overwrites.
  unfoldable pub insert : String → V → StrMap V → StrMap V
  insert key new [] = (key, new) ∷ []
  insert key new (entry ∷ rest) =
      let deeper = insert key new rest in
      if str_eq entry.0 key then (key, new) ∷ rest else entry ∷ deeper

  -- `HashMap::remove`.
  unfoldable pub remove : String → StrMap V → StrMap V
  remove k [] = []
  remove k ((j, w) ∷ m) = let rest = remove k m in if str_eq j k then rest else (j, w) ∷ rest

  -- `HashMap::retain` by a test on the value.
  unfoldable pub retain : (V → Bool) → StrMap V → StrMap V
  retain p [] = []
  retain p ((j, w) ∷ m) = let rest = retain p m in if p w then (j, w) ∷ rest else rest

  abbrev pub contains_key : String → StrMap V → Bool
  contains_key k m = is_some (lookup k m)

  abbrev pub values : StrMap V → List V
  values [] = []
  values ((j, w) ∷ m) = w ∷ values m

module _ {ℓ} {V : Type ℓ} where
  pub lookup-insert :
      (new_key asked : String) (new : V) (entries : StrMap V)
      → lookup asked (insert new_key new entries)
        ≡ (if str_eq new_key asked then some new else lookup asked entries)
  unfolding insert lookup
  lookup-insert new_key asked new [] = ground arith
  lookup-insert new_key asked new (entry ∷ rest) = ground (
    arith,
    lookup-insert new_key asked new rest,
    eq_iff new_key asked,
    eq_iff entry.0 asked,
    eq_iff entry.0 new_key,
  )

  pub lookup-remove :
      (k j : String) (m : StrMap V)
      → lookup j (remove k m) ≡ (if str_eq k j then none else lookup j m)
  unfolding lookup remove
  lookup-remove k j [] = ground arith
  lookup-remove k j ((i, w) ∷ m) =
      ground (arith, eq_iff k j, eq_iff i k, eq_iff i j, lookup-remove k j m)

  -- A key that is there has, after `retain`, its own value if that passes the test.
  abbrev pub keep : (V → Bool) → Option V → Option V
  keep p none = none
  keep p (some v) = if p v then some v else none

pub str_eq_refl : (s : String) → str_eq s s ≡ true
str_eq_refl s = (eq_iff s s).1 refl

pub str_eq_comm : (s t : String) → str_eq s t ≡ str_eq t s
str_eq_comm s t = ground (arith, eq_iff s t, eq_iff t s)

-- Sets of names.
unfoldable pub contains : List String → String → Bool
contains [] a = false
contains (x ∷ xs) a = str_eq x a || contains xs a

unfoldable pub set_insert : String → List String → List String
unfolding contains
set_insert a xs = if contains xs a then xs else a ∷ xs

unfoldable pub set_remove : String → List String → List String
set_remove a [] = []
set_remove a (x ∷ xs) = let rest = set_remove a xs in if str_eq x a then rest else x ∷ rest

unfoldable pub set_extend : List String → List String → List String
unfolding set_insert
set_extend xs [] = xs
set_extend xs (a ∷ as') = set_extend (set_insert a xs) as'

pub contains-set_insert :
    (a b : String) (xs : List String) → contains (set_insert a xs) b ≡ str_eq a b || contains xs b
unfolding set_insert
contains-set_insert a b xs = ground (arith, eq_iff a b)

pub contains-set_remove :
    (a b : String) (xs : List String)
    → contains (set_remove a xs) b ≡ not (str_eq a b) && contains xs b
unfolding set_remove contains
contains-set_remove a b [] = ground arith
contains-set_remove a b (x ∷ xs) =
    ground (arith, eq_iff a b, eq_iff x a, eq_iff x b, contains-set_remove a b xs)

pub contains-set_extend :
    (xs ys : List String) (b : String)
    → contains (set_extend xs ys) b ≡ contains xs b || contains ys b
unfolding set_extend contains
contains-set_extend xs [] b = ground arith
contains-set_extend xs (a ∷ ys) b =
    ground (arith, contains-set_extend (set_insert a xs) ys b, contains-set_insert a b xs)
