-- ===== src/Base/Maps.antt =====
-- Go's maps as partial functions: the order of their entries is not observable.
use mathlib.Core.Path.{◌≡◌}
use mathlib.Core.Logic.{◌↔◌}
use mathlib.Core.Bool.{Bool, true}
use mathlib.Core.Option.{Option, none, some}
use Prim.Native.Nat.{ℕ}
use Prim.Native.String.{String}
use text.Mathlib.Text.{◌==◌ as str_eq}
use text.Mathlib.TextEquality.{eq_iff}
use raft_kvs.Base.Tests.{◌==◌ as same_nat, ==_iff, if◌then◌else◌}

-- Types that serve as keys.
pub record Eq {ℓ} (A : Type ℓ) : Type ℓ where
  pub test : A → A → Bool
  pub test_iff : (x y : A) → (test x y ≡ true) ↔ (x ≡ y)

instance abbrev pub nat_eq : Eq ℕ
nat_eq = record { test = same_nat; test_iff = ==_iff }

instance abbrev pub string_eq : Eq String
string_eq = record { test = str_eq; test_iff = eq_iff }

abbrev pub Map {ℓ κ} : Type ℓ → Type κ → Type (ℓ ⊔ κ)
Map K V = K → Option V

abbrev pub empty {ℓ κ} : {K : Type ℓ} {V : Type κ} → Map K V
empty k = none

-- `m[k] = v`
abbrev pub insert {ℓ κ} : {K : Type ℓ} {V : Type κ} ⦃e : Eq K⦄ → K → V → Map K V → Map K V
insert ⦃e⦄ k v m j = if e.test k j then some v else m j

-- `delete(m, k)`
abbrev pub delete {ℓ κ} : {K : Type ℓ} {V : Type κ} ⦃e : Eq K⦄ → K → Map K V → Map K V
delete ⦃e⦄ k m j = if e.test k j then none else m j

-- `m[k]`, the zero value where there is no entry
abbrev pub get_or {ℓ κ} : {K : Type ℓ} {V : Type κ} → Map K V → K → V → V
get_or m k d = elim (m k) [ none ↦ d | some v ↦ v ]
