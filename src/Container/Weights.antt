-- ===== src/Container/Weights.antt =====
-- Containers whose total weights are those of what they hold, and what an update of weights keeps.
use tibia_server.Base.{ℕ, List, [], ◌∷◌, ◌≡◌, ap, sym, ◌∙◌, arith}
use tibia_server.Base.Word.{add32}
use tibia_server.Container.{
  Kind, Thing, plain, container, Things, nil, cons, Above, Place, heavier, heavier_all,
  update_item_weight, get_weight,
}

-- The items of a list that has one more between two parts.
unfoldable pub between : Things → Thing → Things → Things
between nil t behind = cons t behind
between (cons b before) t behind = cons b (between before t behind)

-- The outermost container with all that it holds.
unfoldable pub whole : Thing → List Above → Thing
whole t [] = t
whole t (a ∷ up) = whole (container a.shell (between a.before t a.behind)) up

abbrev pub whole_of : Place → Thing
whole_of p = whole (container p.here p.item_list) p.above

module _ (items : ℕ → Kind) where
  unfoldable pub weights : Things → ℕ
  weights nil = 0
  weights (cons t ts) = add32 (get_weight items t) (weights ts)

  -- Every container in a thing has the weights of its items up its total.
  abbrev mutual
    pub IsWeighed : Thing → Type 0
    IsWeighed (plain n it) = Unit
    IsWeighed (container s ts) = (s.total_weight ≡ weights ts) × AreWeighed ts

    pub AreWeighed : Things → Type 0
    AreWeighed nil = Unit
    AreWeighed (cons t ts) = IsWeighed t × AreWeighed ts

  -- One item becomes another that weighs more by a difference.
  between-weights :
      (before behind : Things) (t t' : Thing) (diff : ℕ)
      → get_weight items t' ≡ add32 (get_weight items t) diff
      → weights (between before t' behind) ≡ add32 (weights (between before t behind)) diff
  unfolding between weights add32
  between-weights nil behind t t' diff e = omega (arith, e)
  between-weights (cons b before) behind t t' diff e =
      omega (arith, between-weights before behind t t' diff e)

  taken_out :
      (before behind : Things) (t : Thing) → AreWeighed (between before t behind) → IsWeighed t
  unfolding between
  taken_out nil behind t w = w.0
  taken_out (cons b before) behind t w = taken_out before behind t w.1

  put_in :
      (before behind : Things) (t t' : Thing)
      → AreWeighed (between before t behind)
      → IsWeighed t'
      → AreWeighed (between before t' behind)
  unfolding between
  put_in nil behind t t' w w' = (w', w.1)
  put_in (cons b before) behind t t' w w' = (w.0, put_in before behind t t' w.1 w')

  -- What stands inside a weighed container is weighed.
  pub inside-IsWeighed : (t : Thing) (up : List Above) → IsWeighed (whole t up) → IsWeighed t
  unfolding whole
  inside-IsWeighed t [] w = w
  inside-IsWeighed t (a ∷ up) w =
      taken_out a.before a.behind t
        (inside-IsWeighed (container a.shell (between a.before t a.behind)) up w).1

  -- A container that weighs more by a difference, the difference added to every total above it.
  pub whole-IsWeighed :
      (up : List Above) (t t' : Thing) (diff : ℕ)
      → IsWeighed (whole t up)
      → IsWeighed t'
      → get_weight items t' ≡ add32 (get_weight items t) diff
      → IsWeighed (whole t' (heavier_all diff up))
  unfolding whole heavier_all get_weight add32
  whole-IsWeighed [] t t' diff w w' e = w'
  whole-IsWeighed (a ∷ up) t t' diff w w' e =
      let old = container a.shell (between a.before t a.behind) in
      let o = inside-IsWeighed old up w in
      let new_weights = between-weights a.before a.behind t t' diff e in
      whole-IsWeighed up old (container (heavier diff a.shell) (between a.before t' a.behind)) diff
        w (ap (λ n. add32 n diff) o.0 ∙ sym new_weights, put_in a.before a.behind t t' o.1 w')
        (omega arith)

  -- A change of a container's list by a difference of its weights, and the update by that.
  pub update_item_weight-IsWeighed :
      (p : Place) (ts : Things) (diff : ℕ)
      → IsWeighed (whole_of p)
      → AreWeighed ts
      → weights ts ≡ add32 (weights p.item_list) diff
      → IsWeighed (whole_of (update_item_weight diff (record p { item_list = ts })))
  unfolding update_item_weight get_weight add32
  update_item_weight-IsWeighed p ts diff w w' e =
      let o = inside-IsWeighed (container p.here p.item_list) p.above w in
      whole-IsWeighed p.above (container p.here p.item_list) (container (heavier diff p.here) ts)
        diff w (ap (λ n. add32 n diff) o.0 ∙ sym e, w') (omega arith)
