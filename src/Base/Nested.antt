-- ===== src/Base/Nested.antt =====
-- Maps of maps of maps: `m[a][b][c]`, with the pruning of maps that became empty.
use mathlib.Core.Path.{◌≡◌, refl}
use mathlib.Core.Bool.{true, ◌&&◌}
use mathlib.Core.Option.{Option, none, some}
use mathlib.Core.List.{[], ◌∷◌}
use native.Mathlib.Omega.{arith}
use web_socket_ds.Base.Tests.{if◌then◌else◌}
use web_socket_ds.Base.Lists.{is_nil}
use web_socket_ds.Base.Dict.{
  MapKey, ◌==◌, Dict, lookup, assign, erase, index, lookup-assign, lookup-erase,
}

abbrev chain {ℓ κ} : {A : Type ℓ} {B : Type κ} → Option A → (A → Option B) → Option B
chain none f = none
chain (some a) f = f a

module _ {ℓ κ} {K : Type ℓ} {V : Type κ} ⦃e : MapKey K⦄ where
  lookup_of_is_nil : (k : K) (m : Dict K V) → is_nil m ≡ true → lookup k m ≡ none
  unfolding lookup
  lookup_of_is_nil k [] h = refl
  lookup_of_is_nil k (x ∷ m) h = ground arith

module _ {ℓ} {B C V : Type ℓ} ⦃eb : MapKey B⦄ ⦃ec : MapKey C⦄ where
  lookup2 : B → C → Dict B (Dict C V) → Option V
  lookup2 b c n = lookup c (index b [] n)

  assign2 : B → C → V → Dict B (Dict C V) → Dict B (Dict C V)
  assign2 b c v n = assign b (assign c v (index b [] n)) n

  -- `m[b].erase(c); if (!m[b].size()) m.erase(b);`
  unfoldable pub erase_inner : B → C → Dict B (Dict C V) → Dict B (Dict C V)
  erase_inner b c n =
      let inner = erase c (index b [] n) in if is_nil inner then erase b n else assign b inner n

  lookup2-assign2 :
      (b y : B) (c z : C) (v : V) (n : Dict B (Dict C V))
      → lookup2 y z (assign2 b c v n) ≡ (if b == y && c == z then some v else lookup2 y z n)
  unfolding lookup2 assign2
  lookup2-assign2 b y c z v n = ground (
    arith,
    eb.beq_iff b y,
    lookup-assign b y (assign c v (index b [] n)) n,
    lookup-assign c z v (index b [] n),
  )

  lookup2-erase_inner :
      (b y : B) (c z : C) (n : Dict B (Dict C V))
      → lookup2 y z (erase_inner b c n) ≡ (if b == y && c == z then none else lookup2 y z n)
  unfolding lookup2 erase_inner
  lookup2-erase_inner b y c z n = ground (
    arith,
    eb.beq_iff b y,
    lookup-assign b y (erase c (index b [] n)) n,
    lookup-erase b y n,
    lookup-erase c z (index b [] n),
    lookup_of_is_nil z (erase c (index b [] n)),
  )

  lookup2_of_is_nil :
      (b : B) (c : C) (n : Dict B (Dict C V)) → is_nil n ≡ true → lookup2 b c n ≡ none
  unfolding lookup2 lookup
  lookup2_of_is_nil b c [] h = refl
  lookup2_of_is_nil b c (x ∷ n) h = ground arith

module _ {ℓ} {A B C V : Type ℓ} ⦃ea : MapKey A⦄ ⦃eb : MapKey B⦄ ⦃ec : MapKey C⦄ where
  -- `m.at(a).at(b).at(c)`, with `none` for `out_of_range`.
  unfoldable pub lookup3 : A → B → C → Dict A (Dict B (Dict C V)) → Option V
  unfolding lookup2
  lookup3 a b c m = lookup2 b c (index a [] m)

  -- `m[a][b][c] = v`.
  unfoldable pub assign3 : A → B → C → V → Dict A (Dict B (Dict C V)) → Dict A (Dict B (Dict C V))
  unfolding assign2
  assign3 a b c v m = assign a (assign2 b c v (index a [] m)) m

  -- `erase_inner` below `m[a]`, and `if (!m[a].size()) m.erase(a);`
  unfoldable pub erase_pruned : A → B → C → Dict A (Dict B (Dict C V)) → Dict A (Dict B (Dict C V))
  erase_pruned a b c m =
      let outer = erase_inner b c (index a [] m) in
      if is_nil outer then erase a m else assign a outer m

  -- `erase_inner` below `m[a]`, which stays.
  unfoldable pub erase_kept : A → B → C → Dict A (Dict B (Dict C V)) → Dict A (Dict B (Dict C V))
  erase_kept a b c m = assign a (erase_inner b c (index a [] m)) m

  pub lookup3-assign3 :
      (a x : A) (b y : B) (c z : C) (v : V) (m : Dict A (Dict B (Dict C V)))
      → lookup3 x y z (assign3 a b c v m)
        ≡ (if a == x && b == y && c == z then some v else lookup3 x y z m)
  unfolding lookup3 assign3
  lookup3-assign3 a x b y c z v m = ground (
    arith,
    ea.beq_iff a x,
    lookup-assign a x (assign2 b c v (index a [] m)) m,
    lookup2-assign2 b y c z v (index a [] m),
  )

  pub lookup3-erase_kept :
      (a x : A) (b y : B) (c z : C) (m : Dict A (Dict B (Dict C V)))
      → lookup3 x y z (erase_kept a b c m)
        ≡ (if a == x && b == y && c == z then none else lookup3 x y z m)
  unfolding lookup3 erase_kept
  lookup3-erase_kept a x b y c z m = ground (
    arith,
    ea.beq_iff a x,
    lookup-assign a x (erase_inner b c (index a [] m)) m,
    lookup2-erase_inner b y c z (index a [] m),
  )

  pub lookup3-erase_pruned :
      (a x : A) (b y : B) (c z : C) (m : Dict A (Dict B (Dict C V)))
      → lookup3 x y z (erase_pruned a b c m)
        ≡ (if a == x && b == y && c == z then none else lookup3 x y z m)
  unfolding lookup3 erase_pruned
  lookup3-erase_pruned a x b y c z m = ground (
    arith,
    ea.beq_iff a x,
    lookup-assign a x (erase_inner b c (index a [] m)) m,
    lookup-erase a x m,
    lookup2-erase_inner b y c z (index a [] m),
    lookup2_of_is_nil y z (erase_inner b c (index a [] m)),
  )
