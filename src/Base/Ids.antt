-- ===== src/Base/Ids.antt =====
-- A dict keyed by ids, in insertion order.
use Prim.Native.Nat.{ℕ}
use mathlib.Core.Path.{◌≡◌}
use mathlib.Core.Option.{Option, none, some}
use mathlib.Core.List.{List, [], ◌∷◌}
use native.Mathlib.Omega.{arith}
use genesys_cx_demo_harness.Base.Tests.{◌==◌, if◌then◌else◌}

abbrev pub IdDict {ℓ} : Type ℓ → Type ℓ
IdDict V = List (ℕ × V)

module _ {ℓ} {V : Type ℓ} where
  -- `d.get(k)`
  unfoldable pub get_id : ℕ → IdDict V → Option V
  get_id k [] = none
  get_id k ((j, v) ∷ d) = let rest = get_id k d in if k == j then some v else rest

  -- `d[k] = v`
  unfoldable pub put_id : ℕ → V → IdDict V → IdDict V
  put_id k v [] = (k, v) ∷ []
  put_id k v ((j, w) ∷ d) = let rest = put_id k v d in if k == j then (j, v) ∷ d else (j, w) ∷ rest

  pub get_id-put_id :
      (k j : ℕ) (v : V) (d : IdDict V)
      → get_id j (put_id k v d) ≡ (if j == k then some v else get_id j d)
  unfolding get_id put_id
  get_id-put_id k j v [] = ground arith
  get_id-put_id k j v ((i, w) ∷ d) = ground (arith, get_id-put_id k j v d)
