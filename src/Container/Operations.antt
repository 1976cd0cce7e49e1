-- ===== src/Container/Operations.antt =====
-- The operations of a container keep the weights of all containers around it.
use tibia_server.Base.{
  ℕ, ◌-◌, Bool, true, false, not, ◌&&◌, some, ◌==◌, ◌≡◌, arith, Bool-cases, Option-cases, inl, inr,
  if◌then◌else◌,
}
use tibia_server.Base.Word.{add32, sub32}
use tibia_server.Item.{Item}
use tibia_server.Container.{
  Kind, Thing, container, cons, Place, Index, push_back, get_item_by_index, get_thing_index, set_at,
  erase_at, item_of, with_item, with_count, get_weight, past_capacity, at_number, reweigh,
  update_item_weight, add_thing, add_item_back, internal_add_thing, update_thing, replace_thing,
  remove_thing,
}
use tibia_server.Container.Weights.{
  weights, IsWeighed, AreWeighed, whole_of, update_item_weight-IsWeighed, inside-IsWeighed,
}
use tibia_server.Container.Changes.{
  push_back-weights, set_at-weights, erase_at-weights, push_back-AreWeighed, set_at-AreWeighed,
  erase_at-AreWeighed, get_item_by_index-IsWeighed, with_item-IsWeighed,
}

module _ (items : ℕ → Kind) (p : Place) (w : IsWeighed items (whole_of p)) where
  listed : AreWeighed items p.item_list
  listed = (inside-IsWeighed items (container p.here p.item_list) p.above w).1

  reweigh-IsWeighed :
      (i : ℕ) (old new : Thing)
      → get_item_by_index p.item_list i ≡ some old
      → IsWeighed items new
      → IsWeighed items (whole_of (reweigh items i old new p))
  reweigh-IsWeighed i old new e wn =
      update_item_weight-IsWeighed items p (set_at p.item_list i new) _ w
        (set_at-AreWeighed items p.item_list i new listed wn)
        (set_at-weights items p.item_list i old new e)

  internal_add_thing-IsWeighed :
      (t : Thing) → IsWeighed items t → IsWeighed items (whole_of (internal_add_thing items t p))
  unfolding internal_add_thing weights add32
  internal_add_thing-IsWeighed t wt =
      update_item_weight-IsWeighed items p (cons t p.item_list) _ w (wt, listed) (omega arith)

  add_item_back-IsWeighed :
      (t : Thing) → IsWeighed items t → IsWeighed items (whole_of (add_item_back items t p))
  unfolding add_item_back
  add_item_back-IsWeighed t wt =
      update_item_weight-IsWeighed items p (push_back p.item_list t) _ w
        (push_back-AreWeighed items p.item_list t listed wt) (push_back-weights items p.item_list t)

  add_thing-IsWeighed :
      (i : Index) (t : Thing)
      → IsWeighed items t
      → IsWeighed items (whole_of (add_thing items i t p))
  unfolding add_thing
  add_thing-IsWeighed i t wt = elim (Bool-cases (past_capacity i p.here)) [
    | inl e ↦ rw (add_thing, e) w
    | inr e ↦ rw (add_thing, e) (internal_add_thing-IsWeighed t wt)
  ]

  at_number-IsWeighed :
      (n : ℕ) (f : ℕ → Thing → Place)
      → ((i : ℕ) (t : Thing)
          → get_item_by_index p.item_list i ≡ some t
          → IsWeighed items (whole_of (f i t)))
      → IsWeighed items (whole_of (at_number items n p f))
  at_number-IsWeighed n f h = elim (Option-cases (get_thing_index n p.item_list)) [
    | inl e ↦ rw (at_number, e) w
    | inr (i, e) ↦ elim (Option-cases (get_item_by_index p.item_list i)) [
      | inl k ↦ rw (at_number, e, k) w
      | inr (t, k) ↦ rw (at_number, e, k) (h i t k)
    ]
  ]

  update_thing-IsWeighed :
      (n : ℕ) (change : Item → Item) → IsWeighed items (whole_of (update_thing items n change p))
  unfolding update_thing
  update_thing-IsWeighed n change = at_number-IsWeighed n _ (λ i t e.
      reweigh-IsWeighed i t (with_item (change (item_of t)) t) e (
        with_item-IsWeighed items _ t (get_item_by_index-IsWeighed items p.item_list i t listed e)))

  replace_thing-IsWeighed :
      (i : ℕ) (t : Thing)
      → IsWeighed items t
      → IsWeighed items (whole_of (replace_thing items i t p))
  unfolding replace_thing
  replace_thing-IsWeighed i t wt = elim (Option-cases (get_item_by_index p.item_list i)) [
    | inl e ↦ rw (replace_thing, e) w
    | inr (old, e) ↦ rw (replace_thing, e) (reweigh-IsWeighed i old t e wt)
  ]

  remove_thing-IsWeighed : (n count : ℕ) → IsWeighed items (whole_of (remove_thing items n count p))
  unfolding remove_thing
  remove_thing-IsWeighed n count =
      at_number-IsWeighed n _ (λ i t e.
        split i t e ((items (item_of t).id).stackable && not (count == (item_of t).count)))
    where
      split :
          (i : ℕ) (t : Thing)
          → get_item_by_index p.item_list i ≡ some t
          → (b : Bool)
          → IsWeighed items (
              whole_of (
                if b
                then reweigh items i t (with_count ((item_of t).count - count) t) p
                else update_item_weight
                    (sub32 0 (get_weight items t))
                    (record p { item_list = erase_at p.item_list i })))
      split i t e true = reweigh-IsWeighed i t _ e (
          with_item-IsWeighed items _ t
            (get_item_by_index-IsWeighed items p.item_list i t listed e))
      split i t e false =
          update_item_weight-IsWeighed items p (erase_at p.item_list i) _ w
            (erase_at-AreWeighed items p.item_list i listed)
            (erase_at-weights items p.item_list i t e)

-- The calls on a container, one by one; what they add are whole things.
pub data Call : Type 0 where
  add : Index → Thing → Call
  add_back : Thing → Call
  internal_add : Thing → Call
  update : ℕ → (Item → Item) → Call
  replace : ℕ → Thing → Call
  remove : ℕ → ℕ → Call

unfoldable pub call : (ℕ → Kind) → Call → Place → Place
unfolding add_thing add_item_back internal_add_thing update_thing replace_thing remove_thing
call items (add i t) = add_thing items i t
call items (add_back t) = add_item_back items t
call items (internal_add t) = internal_add_thing items t
call items (update n change) = update_thing items n change
call items (replace i t) = replace_thing items i t
call items (remove n count) = remove_thing items n count

abbrev pub IsWeighedCall : (ℕ → Kind) → Call → Type 0
IsWeighedCall items (add i t) = IsWeighed items t
IsWeighedCall items (add_back t) = IsWeighed items t
IsWeighedCall items (internal_add t) = IsWeighed items t
IsWeighedCall items (replace i t) = IsWeighed items t
IsWeighedCall items _ = Unit

-- Where every container, from the outermost one down, has the weights of its items as its total, as
-- words, and what a call adds does too, the call keeps it so, wherever the container stands.
pub call-IsWeighed :
    (items : ℕ → Kind) (c : Call) (p : Place)
    → IsWeighed items (whole_of p)
    → IsWeighedCall items c
    → IsWeighed items (whole_of (call items c p))
unfolding call
call-IsWeighed items (add i t) p w wt = add_thing-IsWeighed items p w i t wt
call-IsWeighed items (add_back t) p w wt = add_item_back-IsWeighed items p w t wt
call-IsWeighed items (internal_add t) p w wt = internal_add_thing-IsWeighed items p w t wt
call-IsWeighed items (update n change) p w wt = update_thing-IsWeighed items p w n change
call-IsWeighed items (replace i t) p w wt = replace_thing-IsWeighed items p w i t wt
call-IsWeighed items (remove n count) p w wt = remove_thing-IsWeighed items p w n count
