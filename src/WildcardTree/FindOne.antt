-- ===== src/WildcardTree/FindOne.antt =====
-- What findOne answers about the words of the tree.
use tibia_server.Base.{
  ℕ, ◌==◌, ◌≡◌, ◌≢◌, refl, ap, ◌∙◌, sym, inl, inr, Bool, Bool-cases, Option-cases, true, false,
  none, some, List, [], ◌∷◌, ◌++◌, arith,
}
use mathlib.Core.List.{append-nil, append_assoc}
use tibia_server.WildcardTree.{
  Node, node, Children, nil, child, get_child, is_dead, ReturnValue, no_error, not_online,
  too_ambiguous, walk, descend, find_one,
}
use tibia_server.WildcardTree.Words.{contains, some_inj, none-some}
use tibia_server.WildcardTree.Live.{IsLive, live, no_children, one_more, get_child-IsLive}

-- What `r` says of the words below a node, where `front` leads to the node: the one word there, or
-- that there are two.
data Below (n : Node) (front : List ℕ) (r : ReturnValue) : Type 0 where
  unique :
      (x : List ℕ)
      → r ≡ no_error (front ++ x)
      → contains x n ≡ true
      → ((v : List ℕ) → contains v n ≡ true → v ≡ x)
      → Below n front r
  several :
      (x y : List ℕ)
      → r ≡ too_ambiguous
      → contains x n ≡ true
      → contains y n ≡ true
      → x ≢ y
      → Below n front r

contains-first :
    (c : ℕ) (x : List ℕ) (b : Bool) (n : Node) (ks : Children)
    → contains (c ∷ x) (node b (child c n ks)) ≡ contains x n
unfolding get_child
contains-first c x b n ks = let self : (c == c) ≡ true = ground arith in rw (self, contains)

contains-second :
    (c d : ℕ) (x : List ℕ) (b : Bool) (n m : Node) (ks : Children)
    → get_child c (child d m ks) ≡ none
    → contains (d ∷ x) (node b (child c n (child d m ks))) ≡ contains x m
unfolding get_child
contains-second c d x b n m ks new = elim (Bool-cases (d == c)) [
  | inl same ↦ absurd (none-some (sym (rw same at new)))
  | inr other ↦
      let ne : (c == d) ≡ false = ground arith in
      let self : (d == d) ≡ true = ground arith in rw (ne, self, contains)
]

-- A live node that is not dead leads to a word.
a_word : {n : Node} → IsLive n → is_dead n ≡ false → (x : List ℕ) × (contains x n ≡ true)
a_word (live {b = true} l) alive = ([], refl)
a_word (live {b = false} no_children) alive = absurd (cc)
a_word (live {b = false} (one_more {c = c} {n = m} {ks = ks} am lm new rest)) alive =
    let w = a_word lm am in (c ∷ w.0, contains-first c w.0 false m ks ∙ w.1)

no_word_in_nil : (v : List ℕ) (b : Bool) → contains v (node b nil) ≡ true → v ≡ []
no_word_in_nil [] b h = refl
no_word_in_nil (d ∷ v) b h = unfold get_child in cc

only_child :
    (c : ℕ) (m : Node) (x v : List ℕ)
    → ((u : List ℕ) → contains u m ≡ true → u ≡ x)
    → contains v (node false (child c m nil)) ≡ true
    → v ≡ c ∷ x
unfolding get_child
only_child c m x [] all h = absurd (cc)
only_child c m x (d ∷ v) all h = elim (Bool-cases (c == d)) [
  | inl same ↦
      let p : c ≡ d = ground arith in rw (← p) (ap (◌∷◌ c) (all v (rw (same, contains) at h)))
  | inr other ↦ absurd (false_true (rw (other, contains) at h))
]
  where
    false_true : false ≡ true → ⊥
    false_true e = cc

distinct_heads :
    (c d : ℕ) (x y : List ℕ) (m : Node) (ks : Children)
    → get_child c (child d m ks) ≡ none
    → c ∷ x ≢ d ∷ y
unfolding get_child
distinct_heads c d x y m ks new e = elim (Bool-cases (d == c)) [
  | inl same ↦ none-some (sym (rw same at new))
  | inr other ↦ ground arith
]

descend-Below :
    {n : Node} → IsLive n → is_dead n ≡ false → (front : List ℕ) → Below n front (descend n front)
unfolding descend
descend-Below (live {b = true} no_children) alive front =
    unique [] (rw append-nil) refl (λ v h. no_word_in_nil v true h)
descend-Below (live {b = false} no_children) alive front = absurd (cc)
descend-Below (live {b = true} (one_more {c = c} {n = m} am lm new no_children)) alive front =
    let w = a_word lm am in
    several [] (c ∷ w.0) refl refl (contains-first c w.0 true m nil ∙ w.1) (λ e. cc)
descend-Below (live {b = false} (one_more {c = c} {n = m} am lm new no_children)) alive front =
    lift (descend-Below lm am (front ++ c ∷ []))
  where
    lift :
        Below m (front ++ c ∷ []) (descend m (front ++ c ∷ []))
        → Below (node false (child c m nil)) front (descend m (front ++ c ∷ []))
    lift (unique x e h all) =
        unique (c ∷ x) (e ∙ ap no_error (append_assoc front (c ∷ []) x))
          (contains-first c x false m nil ∙ h) (λ v k. only_child c m x v all k)
    lift (several x y e h k ne) =
        several (c ∷ x) (c ∷ y) e (contains-first c x false m nil ∙ h)
          (contains-first c y false m nil ∙ k) (λ p. ne (ground arith))
descend-Below
      (live {b = b}
        (one_more {c = c} {n = m} am lm new (one_more {c = d} {n = o} {ks = ks} ao lo _ _)))
      alive front =
    let w = a_word lm am in
    let u = a_word lo ao in
    several (c ∷ w.0) (d ∷ u.0) (two b) (contains-first c w.0 b m (child d o ks) ∙ w.1)
      (contains-second c d u.0 b m o ks new ∙ u.1) (distinct_heads c d w.0 u.0 o ks new)
  where
    two : (t : Bool) → descend (node t (child c m (child d o ks))) front ≡ too_ambiguous
    two true = refl
    two false = refl

walk-IsLive :
    (q : List ℕ) (t n : Node)
    → IsLive t
    → is_dead t ≡ false
    → walk q t ≡ some n
    → IsLive n × (is_dead n ≡ false)
unfolding walk
walk-IsLive [] t n l a e = rw (← some_inj e) (l, a)
walk-IsLive (c ∷ q) (node b ks) n (live l) a e = elim (Option-cases (get_child c ks)) [
  | inl f ↦ absurd (none-some (rw (f, walk) at e))
  | inr (m, f) ↦
      let below = get_child-IsLive c l f in walk-IsLive q m n below.0 below.1 (rw (f, walk) at e)
]

walk-contains :
    (q : List ℕ) (t n : Node) (v : List ℕ) → walk q t ≡ some n → contains (q ++ v) t ≡ contains v n
unfolding walk
walk-contains [] t n v e = ap (contains v) (some_inj e)
walk-contains (c ∷ q) (node b ks) n v e = elim (Option-cases (get_child c ks)) [
  | inl f ↦ absurd (none-some (rw (f, walk) at e))
  | inr (m, f) ↦ rw (f, contains) (walk-contains q m n v (rw (f, walk) at e))
]

walk-none : (q : List ℕ) (t : Node) (v : List ℕ) → walk q t ≡ none → contains (q ++ v) t ≡ false
unfolding walk
walk-none [] t v e = absurd (none-some (sym e))
walk-none (c ∷ q) (node b ks) v e = elim (Option-cases (get_child c ks)) [
  | inl f ↦ rw (f, contains)
  | inr (m, f) ↦ rw (f, contains) (walk-none q m v (rw (f, walk) at e))
]

-- The answer to a query, in terms of the words that begin with it: none, exactly one, which is
-- returned, or at least two.
pub data IsAnswer (q : List ℕ) (t : Node) (r : ReturnValue) : Type 0 where
  nobody : r ≡ not_online → ((v : List ℕ) → contains (q ++ v) t ≡ false) → IsAnswer q t r
  one :
      (x : List ℕ)
      → r ≡ no_error (q ++ x)
      → contains (q ++ x) t ≡ true
      → ((v : List ℕ) → contains (q ++ v) t ≡ true → v ≡ x)
      → IsAnswer q t r
  ambiguous :
      (x y : List ℕ)
      → r ≡ too_ambiguous
      → contains (q ++ x) t ≡ true
      → contains (q ++ y) t ≡ true
      → x ≢ y
      → IsAnswer q t r

-- In a tree with no dead branch that holds some word, findOne completes a query exactly when one
-- word begins with it, to that word; it says that nobody is there when none does, and that the name
-- is ambiguous when two do.
pub find_one-IsAnswer :
    (q : List ℕ) (t : Node) → IsLive t → is_dead t ≡ false → IsAnswer q t (find_one q t)
unfolding find_one
find_one-IsAnswer q t l a = elim (Option-cases (walk q t)) [
  | inl e ↦ rw (e, find_one) (nobody refl (λ v. walk-none q t v e))
  | inr (n, e) ↦
      let below = walk-IsLive q t n l a e in
      rw (e, find_one) (answer n e (descend-Below below.0 below.1 q))
]
  where
    answer : (n : Node) → walk q t ≡ some n → Below n q (descend n q) → IsAnswer q t (descend n q)
    answer n e (unique x r h all) =
        one x r (walk-contains q t n x e ∙ h) (λ v k. all v (sym (walk-contains q t n v e) ∙ k))
    answer n e (several x y r h k ne) =
        ambiguous x y r (walk-contains q t n x e ∙ h) (walk-contains q t n y e ∙ k) ne
