-- ===== src/Base/Update.antt =====
-- Functions changed at one number: arrays and maps.
use Prim.Native.Nat.{ℕ}
use mathlib.Core.Path.{◌≡◌, refl}
use mathlib.Core.Logic.{◌≢◌, ◌⊎◌, inl, inr}
use mathlib.Core.Bool.{true, false}
use mathlib.Core.Option.{none, some}
use native.Mathlib.Omega.{arith}
use native.Mathlib.Decide.{ℕ_discrete}
use tibia_server.Base.Tests.{◌==◌, if◌then◌else◌}

abbrev pub put {ℓ} : {A : Type ℓ} → (ℕ → A) → ℕ → A → ℕ → A
put f i v k = if k == i then v else f k

pub some_inj {ℓ} : {A : Type ℓ} → {a b : A} → some a ≡ some b → a ≡ b
some_inj e = cc

pub no_node {ℓ} : {A : Type ℓ} → {a : A} → none ≡ some a → ⊥
no_node e = cc

pub ==_no : (a b : ℕ) → a ≢ b → (a == b) ≡ false
==_no a b h = ground arith

pub ==_yes : (a b : ℕ) → a ≡ b → (a == b) ≡ true
==_yes a b h = ground arith

module _ {ℓ} {A : Type ℓ} where
  pub put_same : (f : ℕ → A) (i k : ℕ) (v : A) → k ≡ i → put f i v k ≡ v
  put_same f i k v e = rw (==_yes k i e) refl

  pub put_other : (f : ℕ → A) (i k : ℕ) (v : A) → k ≢ i → put f i v k ≡ f k
  put_other f i k v e = rw (==_no k i e) refl

  pub put-cases :
      (f : ℕ → A) (i k : ℕ) (v : A)
      → ((k ≡ i) × (put f i v k ≡ v)) ⊎ ((k ≢ i) × (put f i v k ≡ f k))
  put-cases f i k v = elim (ℕ_discrete k i) [
    | yes e ↦ inl (e, put_same f i k v e)
    | no e ↦ inr (e, put_other f i k v e)
  ]
