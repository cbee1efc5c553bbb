-- ===== src/Common/Sweep.antt =====
-- Clean-up of a dictionary: the keys of the values to go are collected, and then deleted one by one.
use mathlib.Core.Path.{◌≡◌, refl}
use mathlib.Core.Logic.{inl, inr}
use mathlib.Core.Bool.{Bool, true, false}
use mathlib.Core.Option.{Option, none, some}
use mathlib.Core.List.{List, [], ◌∷◌}
use native.Mathlib.Omega.{arith}
use seigr_toolset_transmissi.Common.Tests.{if◌then◌else◌, Option-cases}
use seigr_toolset_transmissi.Common.Dict.{Eq, Dict, get, put, remove, ◌===◌, get-put, get-remove}

module _ {ℓ} {K : Type ℓ} ⦃e : Eq K⦄ where
  unfoldable pub is_among : K → List K → Bool
  is_among j [] = false
  is_among j (k ∷ ks) = let rest = is_among j ks in if k === j then true else rest

-- What is kept of a value.
abbrev pub unless {κ} : {V : Type κ} → (V → Bool) → Option V → Option V
unless test none = none
unless test (some v) = if test v then none else some v

module _ {ℓ κ} {K : Type ℓ} {V : Type κ} ⦃e : Eq K⦄ where
  -- No key stands twice.
  abbrev pub HasUniqueKeys : Dict K V → Type (ℓ ⊔ κ)
  HasUniqueKeys [] = Unit
  HasUniqueKeys ((k, v) ∷ d) = (get k d ≡ none) × HasUniqueKeys d

  unfoldable pub keys_where : (V → Bool) → Dict K V → List K
  keys_where test [] = []
  keys_where test ((k, v) ∷ d) = let rest = keys_where test d in if test v then k ∷ rest else rest

  unfoldable pub delete_keys : List K → Dict K V → Dict K V
  delete_keys [] d = d
  delete_keys (k ∷ ks) d = delete_keys ks (remove k d)

  pub get-delete_keys :
      (ks : List K) (j : K) (d : Dict K V)
      → get j (delete_keys ks d) ≡ (if is_among j ks then none else get j d)
  unfolding delete_keys is_among
  get-delete_keys [] j d = refl
  get-delete_keys (k ∷ ks) j d = ground (arith, get-delete_keys ks j (remove k d), get-remove k j d)

  is_among-none :
      (test : V → Bool) (j : K) (d : Dict K V)
      → get j d ≡ none
      → is_among j (keys_where test d) ≡ false
  unfolding is_among keys_where get
  is_among-none test j [] gone = refl
  is_among-none test j ((k, v) ∷ d) gone = ground (arith, is_among-none test j d)

  is_among-some :
      (test : V → Bool) (j : K) (w : V) (d : Dict K V)
      → HasUniqueKeys d
      → get j d ≡ some w
      → is_among j (keys_where test d) ≡ test w
  unfolding is_among keys_where get
  is_among-some test j w [] u there = cc there
  is_among-some test j w ((k, v) ∷ d) u there =
      ground (arith, e.beq_iff k j, is_among-none test k d (u.0), is_among-some test j w d (u.1))

  -- The clean-up takes just the values that the test picks.
  pub get-sweep :
      (test : V → Bool) (j : K) (d : Dict K V)
      → HasUniqueKeys d
      → get j (delete_keys (keys_where test d) d) ≡ unless test (get j d)
  get-sweep test j d u = elim (Option-cases (get j d)) [
    | inl gone ↦ rw (get-delete_keys, is_among-none test j d gone, gone) refl
    | inr there ↦ rw (get-delete_keys, is_among-some test j (there.0) d u (there.1), there.1) refl
  ]

  pub remove-none : (k : K) (d : Dict K V) → get k d ≡ none → remove k d ≡ d
  unfolding get remove
  remove-none k [] gone = refl
  remove-none k ((j, v) ∷ d) gone = ground (arith, remove-none k d)

  pub put-HasUniqueKeys :
      (k : K) (v : V) (d : Dict K V) → HasUniqueKeys d → HasUniqueKeys (put k v d)
  unfolding put get
  put-HasUniqueKeys k v [] u = (refl, tt)
  put-HasUniqueKeys k v ((j, w) ∷ d) u =
      ground (arith, e.beq_iff j k, e.beq_iff k j, get-put k j v d, put-HasUniqueKeys k v d u.1)

  pub remove-HasUniqueKeys : (k : K) (d : Dict K V) → HasUniqueKeys d → HasUniqueKeys (remove k d)
  unfolding remove
  remove-HasUniqueKeys k [] u = tt
  remove-HasUniqueKeys k ((j, w) ∷ d) u =
      ground (arith, get-remove k j d, remove-HasUniqueKeys k d u.1)

  pub delete_keys-HasUniqueKeys :
      (ks : List K) (d : Dict K V) → HasUniqueKeys d → HasUniqueKeys (delete_keys ks d)
  unfolding delete_keys
  delete_keys-HasUniqueKeys [] d u = u
  delete_keys-HasUniqueKeys (k ∷ ks) d u =
      delete_keys-HasUniqueKeys ks (remove k d) (remove-HasUniqueKeys k d u)
