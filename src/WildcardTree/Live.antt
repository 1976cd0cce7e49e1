-- ===== src/WildcardTree/Live.antt =====
-- The tree has no dead branch: below the root, each node leads to a word. The operations keep that.
use tibia_server.Base.{
  ℕ, ◌==◌, ◌≡◌, refl, ◌∙◌, inl, inr, Bool, Bool-cases, Option-cases, true, false, none, some, List,
  [], ◌∷◌, arith,
}
use tibia_server.WildcardTree.{
  Node, node, Children, nil, child, get_child, put_child, erase_child, mark, add_child, insert,
  is_dead, prune, remove_path, remove,
}
use tibia_server.WildcardTree.Words.{
  some_inj, none-some, get_child-put_child, get_child-erase_child,
}

mutual
  pub data IsLive : Node → Type 0 where
    live : {b : Bool} {ks : Children} → AreLive ks → IsLive (node b ks)

  -- The children are live, none is dead, and no character has two.
  pub data AreLive : Children → Type 0 where
    no_children : AreLive nil
    one_more :
        {c : ℕ} {n : Node} {ks : Children}
        → is_dead n ≡ false
        → IsLive n
        → get_child c ks ≡ none
        → AreLive ks
        → AreLive (child c n ks)

pub get_child-IsLive :
    (c : ℕ) {ks : Children} {n : Node}
    → AreLive ks
    → get_child c ks ≡ some n
    → IsLive n × (is_dead n ≡ false)
unfolding get_child
get_child-IsLive c no_children e = absurd (none-some e)
get_child-IsLive c (one_more {c = x} {n = m} {ks = ks} alive l new rest) e =
    elim (Bool-cases (x == c)) [
      | inl here ↦ rw (← some_inj (rw here at e)) (l, alive)
      | inr on ↦ get_child-IsLive c rest (rw on at e)
    ]

put_child-AreLive :
    (c : ℕ) {m : Node} {ks : Children}
    → AreLive ks
    → IsLive m
    → is_dead m ≡ false
    → AreLive (put_child c m ks)
unfolding put_child
put_child-AreLive c {m = m} no_children l a =
    one_more {c = c} {n = m} {ks = nil} a l (unfold get_child in refl) no_children
put_child-AreLive c {m = m} (one_more {c = x} {n = n} {ks = ks} alive ln new rest) l a =
    elim (Bool-cases (x == c)) [
      | inl here ↦ rw here (one_more {c = x} a l new rest)
      | inr on ↦
          let other : (c == x) ≡ false = ground arith in
          rw on (
            one_more alive ln (get_child-put_child c x m ks ∙ rw other new)
              (put_child-AreLive c rest l a))
    ]

erase_child-AreLive : (c : ℕ) {ks : Children} → AreLive ks → AreLive (erase_child c ks)
unfolding erase_child
erase_child-AreLive c no_children = no_children
erase_child-AreLive c (one_more {c = x} {n = n} {ks = ks} alive ln new rest) =
    elim (Bool-cases (x == c)) [
      | inl here ↦ rw here (erase_child-AreLive c rest)
      | inr on ↦
          let other : (c == x) ≡ false = ground arith in
          rw on (
            one_more alive ln (get_child-erase_child c x ks ∙ rw other new)
              (erase_child-AreLive c rest))
    ]

add_child-IsLive : (c : ℕ) (b : Bool) {ks : Children} → AreLive ks → IsLive (add_child c b ks)
unfolding add_child
add_child-IsLive c b {ks} l = elim (Option-cases (get_child c ks)) [
  | inl e ↦ rw e (live no_children)
  | inr (n, e) ↦ rw e (marked n (get_child-IsLive c l e).0)
]
  where
    marked : (n : Node) → IsLive n → IsLive (mark b n)
    marked (node b' ks') (live l') = live l'

put_child_alive :
    (c : ℕ) (m : Node) (b : Bool) (ks : Children) → is_dead (node b (put_child c m ks)) ≡ false
unfolding put_child
put_child_alive c m true ks = refl
put_child_alive c m false nil = refl
put_child_alive c m false (child x n ks) = elim (Bool-cases (x == c)) [
  | inl e ↦ rw e
  | inr e ↦ rw e
]

pub insert_alive : (c : ℕ) (w : List ℕ) (t : Node) → is_dead (insert c w t) ≡ false
unfolding insert
insert_alive c [] (node b ks) = put_child_alive c _ b ks
insert_alive c (d ∷ w) (node b ks) = put_child_alive c _ b ks

add_child_alive : (c : ℕ) (ks : Children) → is_dead (add_child c true ks) ≡ false
unfolding add_child
add_child_alive c ks = elim (Option-cases (get_child c ks)) [
  | inl e ↦ rw e
  | inr (n, e) ↦ rw e (marked n)
]
  where
    marked : (n : Node) → is_dead (mark true n) ≡ false
    marked (node b ks') = refl

-- insert keeps the tree free of dead branches.
pub insert-IsLive : (c : ℕ) (w : List ℕ) {t : Node} → IsLive t → IsLive (insert c w t)
unfolding insert
insert-IsLive c [] (live {ks = ks} l) =
    live (put_child-AreLive c l (add_child-IsLive c true l) (add_child_alive c ks))
insert-IsLive c (d ∷ w) (live {ks = ks} l) = live (
    put_child-AreLive c l (insert-IsLive d w (add_child-IsLive c false l))
      (insert_alive d w (add_child c false ks)))

prune-AreLive : (c : ℕ) (n : Node) {ks : Children} → AreLive ks → IsLive n → AreLive (prune c n ks)
prune-AreLive c n l ln = elim (Bool-cases (is_dead n)) [
  | inl e ↦ rw e (erase_child-AreLive c l)
  | inr e ↦ rw e (put_child-AreLive c l ln e)
]

remove_path-IsLive : (w : List ℕ) (t t' : Node) → IsLive t → remove_path w t ≡ some t' → IsLive t'
unfolding remove_path
remove_path-IsLive [] (node b ks) t' (live l) h = rw (← some_inj h) (live l)
remove_path-IsLive (c ∷ w) (node b ks) t' (live l) h = elim (Option-cases (get_child c ks)) [
  | inl e ↦ absurd (none-some (rw (e, remove_path) at h))
  | inr (n, e) ↦ elim (Option-cases (remove_path w n)) [
    | inl f ↦ absurd (none-some (rw (e, f, remove_path) at h))
    | inr (n', f) ↦
        rw (← some_inj (rw (e, f, remove_path) at h))
          (live (prune-AreLive c n' l (remove_path-IsLive w n n' (get_child-IsLive c l e).0 f)))
  ]
]

-- So does remove.
pub remove-IsLive : (w : List ℕ) (t : Node) → IsLive t → IsLive (remove w t)
unfolding remove
remove-IsLive w t l = elim (Option-cases (remove_path w t)) [
  | inl e ↦ rw (e, remove) l
  | inr (t', e) ↦ rw (e, remove) (remove_path-IsLive w t t' l e)
]
