-- ===== src/Base/Dict.antt =====
-- `std::map` and `std::unordered_map` as association lists, over keys with a Boolean equality.
use Prim.Native.Nat.{ℕ}
use Prim.Native.String.{String}
use mathlib.Core.Path.{◌≡◌, refl}
use mathlib.Core.Logic.{◌↔◌}
use mathlib.Core.Bool.{Bool, true}
use mathlib.Core.Option.{Option, none, some}
use mathlib.Core.List.{List, [], ◌∷◌}
use native.Mathlib.Omega.{arith}
use text.Mathlib.TextEquality.{eq_iff}
use web_socket_ds.Base.Tests.{nat_beq, nat_beq_iff, is_some, if◌then◌else◌}
use web_socket_ds.Base.Text.{str_beq}

pub record MapKey {ℓ} (K : Type ℓ) : Type ℓ where
  pub beq : K → K → Bool
  pub beq_iff : (j k : K) → (beq j k ≡ true) ↔ (j ≡ k)

pub str_beq_iff : (s t : String) → (str_beq s t ≡ true) ↔ (s ≡ t)
str_beq_iff s t = eq_iff s t

instance abbrev pub string_eq : MapKey String
string_eq = record { beq = str_beq; beq_iff = str_beq_iff }

instance abbrev pub nat_eq : MapKey ℕ
nat_eq = record { beq = nat_beq; beq_iff = nat_beq_iff }

infix 50 ◌==◌
abbrev pub ◌==◌ {ℓ} : {A : Type ℓ} ⦃e : MapKey A⦄ → A → A → Bool
◌==◌ ⦃e⦄ = e.beq

abbrev pub Dict {ℓ κ} : Type ℓ → Type κ → Type (ℓ ⊔ κ)
Dict K V = List (K × V)

pub beq_self {ℓ} : {K : Type ℓ} ⦃e : MapKey K⦄ (k : K) → (k == k) ≡ true
beq_self ⦃e⦄ k = (e.beq_iff k k).1 refl

module _ {ℓ κ} {K : Type ℓ} {V : Type κ} ⦃e : MapKey K⦄ where
  -- `find`, and `at` with `none` for `out_of_range`.
  unfoldable pub lookup : K → Dict K V → Option V
  lookup k [] = none
  lookup k ((j, v) ∷ m) = if j == k then some v else lookup k m

  -- `m[k] = v`.
  unfoldable pub assign : K → V → Dict K V → Dict K V
  assign k v [] = (k, v) ∷ []
  assign k v ((j, w) ∷ m) = if j == k then (j, v) ∷ m else (j, w) ∷ assign k v m

  -- `m.insert({k, v})`, which leaves a present key alone.
  unfoldable pub insert_new : K → V → Dict K V → Dict K V
  insert_new k v [] = (k, v) ∷ []
  insert_new k v ((j, w) ∷ m) = if j == k then (j, w) ∷ m else (j, w) ∷ insert_new k v m

  unfoldable pub erase : K → Dict K V → Dict K V
  erase k [] = []
  erase k ((j, v) ∷ m) = if j == k then erase k m else (j, v) ∷ erase k m

  -- `m[k]`, with the value that it makes where the key is missing.
  abbrev pub index : K → V → Dict K V → V
  index k d m = elim (lookup k m) [ none ↦ d | some v ↦ v ]

  pub lookup-assign :
      (k j : K) (v : V) (m : Dict K V)
      → lookup j (assign k v m) ≡ (if k == j then some v else lookup j m)
  unfolding lookup assign
  lookup-assign k j v [] = refl
  lookup-assign k j v ((i, w) ∷ m) =
      ground (arith, e.beq_iff k j, e.beq_iff i k, e.beq_iff i j, lookup-assign k j v m)

  pub lookup-insert_new :
      (k j : K) (v : V) (m : Dict K V)
      → lookup k m ≡ none
      → lookup j (insert_new k v m) ≡ (if k == j then some v else lookup j m)
  unfolding lookup insert_new
  lookup-insert_new k j v [] h = refl
  lookup-insert_new k j v ((i, w) ∷ m) h =
      ground (arith, e.beq_iff k j, e.beq_iff i k, e.beq_iff i j, lookup-insert_new k j v m)

  pub lookup-insert_new_first :
      (k j : K) (v : V) (m : Dict K V)
      → lookup j (insert_new k v m)
        ≡ (if is_some (lookup j m) then lookup j m else if k == j then some v else none)
  unfolding lookup insert_new
  lookup-insert_new_first k j v [] = ground arith
  lookup-insert_new_first k j v ((i, w) ∷ m) =
      ground (arith, e.beq_iff k j, e.beq_iff i k, e.beq_iff i j, lookup-insert_new_first k j v m)

  pub lookup-erase :
      (k j : K) (m : Dict K V) → lookup j (erase k m) ≡ (if k == j then none else lookup j m)
  unfolding lookup erase
  lookup-erase k j [] = ground arith
  lookup-erase k j ((i, w) ∷ m) =
      ground (arith, e.beq_iff k j, e.beq_iff i k, e.beq_iff i j, lookup-erase k j m)
