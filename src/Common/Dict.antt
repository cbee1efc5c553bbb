-- ===== src/Common/Dict.antt =====
-- Python's `dict` as an association list in insertion order: an assignment to a key that is there
-- keeps its place. Keys are compared by an instance of `Eq`.
use mathlib.Core.Logic.{◌↔◌}
use text.Mathlib.Text.{◌==◌ as str_eq}
use text.Mathlib.TextEquality.{eq_iff}
use Prim.Native.String.{String}
use mathlib.Core.Path.{◌≡◌, refl}
use mathlib.Core.Bool.{Bool, true, false, ◌&&◌}
use mathlib.Core.Option.{Option, none, some}
use mathlib.Core.List.{List, [], ◌∷◌}
use Prim.Native.Nat.{ℕ, ◌≤◌, ◌<◌}
use native.Mathlib.Omega.{arith}
use seigr_toolset_transmissi.Common.Int.{ℤ, pos, negsuc}
use seigr_toolset_transmissi.Common.Lists.{length}
use seigr_toolset_transmissi.Common.Tests.{◌==◌ as nat_beq, ==_iff, if◌then◌else◌}

pub record Eq {ℓ} (A : Type ℓ) : Type ℓ where
  pub beq : A → A → Bool
  pub beq_iff : (a b : A) → (beq a b ≡ true) ↔ (a ≡ b)

infix 50 ◌===◌
abbrev pub ◌===◌ {ℓ} : {A : Type ℓ} ⦃e : Eq A⦄ → A → A → Bool
◌===◌ ⦃e⦄ = e.beq

instance abbrev pub nat_eq : Eq ℕ
nat_eq = record { beq = nat_beq; beq_iff = ==_iff }

instance abbrev pub string_eq : Eq String
string_eq = record { beq = str_eq; beq_iff = eq_iff }

abbrev pub int_beq : ℤ → ℤ → Bool
int_beq (pos a) (pos b) = nat_beq a b
int_beq (negsuc a) (negsuc b) = nat_beq a b
int_beq _ _ = false

pub int_beq_iff : (a b : ℤ) → (int_beq a b ≡ true) ↔ (a ≡ b)
int_beq_iff (pos a) (pos b) = ground (arith, ==_iff a b)
int_beq_iff (negsuc a) (negsuc b) = ground (arith, ==_iff a b)
int_beq_iff (pos a) (negsuc b) = ((λ h. cc), (λ h. cc))
int_beq_iff (negsuc a) (pos b) = ((λ h. cc), (λ h. cc))

instance abbrev pub int_eq : Eq ℤ
int_eq = record { beq = int_beq; beq_iff = int_beq_iff }

abbrev pub bytes_beq : List ℕ → List ℕ → Bool
bytes_beq [] [] = true
bytes_beq (a ∷ as') (b ∷ bs) = nat_beq a b && bytes_beq as' bs
bytes_beq _ _ = false

pub bytes_beq_iff : (a b : List ℕ) → (bytes_beq a b ≡ true) ↔ (a ≡ b)
bytes_beq_iff [] [] = ((λ h. refl), (λ h. refl))
bytes_beq_iff (a ∷ as') (b ∷ bs) = ground (arith, ==_iff a b, bytes_beq_iff as' bs)
bytes_beq_iff [] (b ∷ bs) = ((λ h. cc), (λ h. cc))
bytes_beq_iff (a ∷ as') [] = ((λ h. cc), (λ h. cc))

instance abbrev pub bytes_eq : Eq (List ℕ)
bytes_eq = record { beq = bytes_beq; beq_iff = bytes_beq_iff }

abbrev pub Dict {ℓ κ} : Type ℓ → Type κ → Type (ℓ ⊔ κ)
Dict K V = List (K × V)

module _ {ℓ κ} {K : Type ℓ} {V : Type κ} ⦃e : Eq K⦄ where
  -- d.get(k)
  unfoldable pub get : K → Dict K V → Option V
  get k [] = none
  get k ((j, v) ∷ d) = if j === k then some v else get k d

  -- d[k] = v
  unfoldable pub put : K → V → Dict K V → Dict K V
  put k v [] = (k, v) ∷ []
  put k v ((j, w) ∷ d) = if j === k then (j, v) ∷ d else (j, w) ∷ put k v d

  -- del d[k], d.pop(k, None)
  unfoldable pub remove : K → Dict K V → Dict K V
  remove k [] = []
  remove k ((j, w) ∷ d) = let rest = remove k d in if j === k then rest else (j, w) ∷ rest

  pub get-put :
      (k j : K) (v : V) (d : Dict K V) → get j (put k v d) ≡ (if k === j then some v else get j d)
  unfolding get put
  get-put k j v [] = refl
  get-put k j v ((i, w) ∷ d) =
      ground (arith, e.beq_iff k j, e.beq_iff i k, e.beq_iff i j, get-put k j v d)

  pub get-remove :
      (k j : K) (d : Dict K V) → get j (remove k d) ≡ (if k === j then none else get j d)
  unfolding get remove
  get-remove k j [] = ground arith
  get-remove k j ((i, w) ∷ d) =
      ground (arith, e.beq_iff k j, e.beq_iff i k, e.beq_iff i j, get-remove k j d)

  pub length-remove_le : (k : K) (d : Dict K V) → length (remove k d) ≤ length d
  unfolding remove
  length-remove_le k [] = omega arith
  length-remove_le k ((i, w) ∷ d) = ground (arith, length-remove_le k d)

  -- Deleting a key that is there makes the dictionary shorter.
  pub length-remove :
      (k : K) (v : V) (d : Dict K V) → get k d ≡ some v → length (remove k d) < length d
  unfolding get remove
  length-remove k v [] h = cc
  length-remove k v ((i, w) ∷ d) h = ground (arith, length-remove_le k d, length-remove k v d)

-- k in d
abbrev pub has {ℓ κ} : {K : Type ℓ} {V : Type κ} ⦃e : Eq K⦄ → K → Dict K V → Bool
has k d = elim (get k d) [ none ↦ false | some v ↦ true ]

abbrev pub keys {ℓ κ} : {K : Type ℓ} {V : Type κ} → Dict K V → List K
keys [] = []
keys ((k, v) ∷ d) = k ∷ keys d

abbrev pub values {ℓ κ} : {K : Type ℓ} {V : Type κ} → Dict K V → List V
values [] = []
values ((k, v) ∷ d) = v ∷ values d
