-- ===== src/Container/Changes.antt =====
-- What the changes of a container's list make of its weights.
use tibia_server.Base.{
  ℕ, zero, suc, ◌<◌, Option, none, some, ◌≡◌, refl, ap, arith, Bool-cases, inl, inr, subst,
}
use tibia_server.Base.Word.{u32_mod, add32, sub32}
use tibia_server.Item.{Item, Attributes, has_attribute}
use tibia_server.Container.{
  Kind, Thing, plain, container, Things, nil, cons, push_back, get_item_by_index, set_at, erase_at,
  with_item, item_weight, get_weight, get_base_weight, weight_attribute,
}
use tibia_server.Container.Weights.{weights, IsWeighed, AreWeighed}

no_item {ℓ} : {A : Type ℓ} → {a : A} → none ≡ some a → ⊥
no_item e = cc

module _ (items : ℕ → Kind) where
  get_base_weight-lt : (it : Item) → get_base_weight items it < u32_mod
  get_base_weight-lt it = base_lt it.attributes refl
    where
      base_lt : (o : Option Attributes) → it.attributes ≡ o → get_base_weight items it < u32_mod
      base_lt none e = rw e (omega arith)
      base_lt (some a) e = elim (Bool-cases (has_attribute weight_attribute a)) [
        | inl b ↦ rw (e, b) (omega arith)
        | inr b ↦ rw (e, b) (omega arith)
      ]

  item_weight-lt : (it : Item) → item_weight items it < u32_mod
  unfolding item_weight
  item_weight-lt it = elim (Bool-cases ((items it.id).stackable)) [
    | inl e ↦ rw (item_weight, e) (omega arith)
    | inr e ↦ rw (item_weight, e) (get_base_weight-lt it)
  ]

  pub get_weight-lt : (t : Thing) → get_weight items t < u32_mod
  unfolding get_weight add32
  get_weight-lt (plain n it) = item_weight-lt it
  get_weight-lt (container s ts) = omega arith

  found_weight : (t old : Thing) → some t ≡ some old → get_weight items t ≡ get_weight items old
  found_weight t old e = ap weight_in e
    where
      weight_in : Option Thing → ℕ
      weight_in none = 0
      weight_in (some t) = get_weight items t

  weights-lt : (ts : Things) → weights items ts < u32_mod
  unfolding weights add32
  weights-lt nil = omega arith
  weights-lt (cons t ts) = omega arith

  pub push_back-weights :
      (ts : Things) (x : Thing)
      → weights items (push_back ts x) ≡ add32 (weights items ts) (get_weight items x)
  unfolding push_back weights add32
  push_back-weights nil x = omega arith
  push_back-weights (cons t ts) x = omega (arith, push_back-weights ts x)

  pub set_at-weights :
      (ts : Things) (i : ℕ) (old x : Thing)
      → get_item_by_index ts i ≡ some old
      → weights items (set_at ts i x)
        ≡ add32 (weights items ts) (sub32 (get_weight items x) (get_weight items old))
  unfolding set_at get_item_by_index weights add32 sub32
  set_at-weights nil i old x e = absurd (no_item e)
  set_at-weights (cons t ts) zero old x e = omega (arith, found_weight t old e, get_weight-lt old)
  set_at-weights (cons t ts) (suc i) old x e =
      omega (arith, set_at-weights ts i old x e, get_weight-lt old)

  pub erase_at-weights :
      (ts : Things) (i : ℕ) (old : Thing)
      → get_item_by_index ts i ≡ some old
      → weights items (erase_at ts i) ≡ add32 (weights items ts) (sub32 0 (get_weight items old))
  unfolding erase_at get_item_by_index weights add32 sub32
  erase_at-weights nil i old e = absurd (no_item e)
  erase_at-weights (cons t ts) zero old e =
      omega (arith, found_weight t old e, get_weight-lt old, weights-lt ts)
  erase_at-weights (cons t ts) (suc i) old e =
      omega (arith, erase_at-weights ts i old e, get_weight-lt old)

  pub push_back-AreWeighed :
      (ts : Things) (x : Thing)
      → AreWeighed items ts
      → IsWeighed items x
      → AreWeighed items (push_back ts x)
  unfolding push_back
  push_back-AreWeighed nil x w wx = (wx, tt)
  push_back-AreWeighed (cons t ts) x w wx = (w.0, push_back-AreWeighed ts x w.1 wx)

  pub set_at-AreWeighed :
      (ts : Things) (i : ℕ) (x : Thing)
      → AreWeighed items ts
      → IsWeighed items x
      → AreWeighed items (set_at ts i x)
  unfolding set_at
  set_at-AreWeighed nil i x w wx = w
  set_at-AreWeighed (cons t ts) zero x w wx = (wx, w.1)
  set_at-AreWeighed (cons t ts) (suc i) x w wx = (w.0, set_at-AreWeighed ts i x w.1 wx)

  pub erase_at-AreWeighed :
      (ts : Things) (i : ℕ) → AreWeighed items ts → AreWeighed items (erase_at ts i)
  unfolding erase_at
  erase_at-AreWeighed nil i w = w
  erase_at-AreWeighed (cons t ts) zero w = w.1
  erase_at-AreWeighed (cons t ts) (suc i) w = (w.0, erase_at-AreWeighed ts i w.1)

  pub get_item_by_index-IsWeighed :
      (ts : Things) (i : ℕ) (t : Thing)
      → AreWeighed items ts
      → get_item_by_index ts i ≡ some t
      → IsWeighed items t
  unfolding get_item_by_index
  get_item_by_index-IsWeighed nil i t w e = absurd (no_item e)
  get_item_by_index-IsWeighed (cons x ts) zero t w e = subst weighed_in e w.0
    where
      weighed_in : Option Thing → Type 0
      weighed_in none = Unit
      weighed_in (some t) = IsWeighed items t
  get_item_by_index-IsWeighed (cons x ts) (suc i) t w e = get_item_by_index-IsWeighed ts i t w.1 e

  pub with_item-IsWeighed :
      (it : Item) (t : Thing) → IsWeighed items t → IsWeighed items (with_item it t)
  with_item-IsWeighed it (plain n old) w = tt
  with_item-IsWeighed it (container s ts) w = w
