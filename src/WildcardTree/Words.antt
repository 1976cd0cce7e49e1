-- ===== src/WildcardTree/Words.antt =====
-- The tree as a set of words: insert adds one, and remove takes one away.
use tibia_server.Base.{
  ℕ, ◌==◌, ◌≡◌, refl, ap, subst, ◌∙◌, sym, inl, inr, Bool, Bool-cases, Option-cases, true, false,
  not, ◌||◌, ◌&&◌, if◌then◌else◌, Option, none, some, List, [], ◌∷◌, arith,
}
use tibia_server.WildcardTree.{
  Node, node, Children, nil, child, get_child, put_child, erase_child, mark, add_child, insert,
  is_dead, prune, remove_path, remove,
}

-- The word leads to a breakpoint.
abbrev pub contains : List ℕ → Node → Bool
contains [] (node b ks) = b
contains (ch ∷ rest) (node b ks) = elim (get_child ch ks) [
  | none ↦ false
  | some n ↦ contains rest n
]

abbrev pub word_eq : List ℕ → List ℕ → Bool
word_eq [] [] = true
word_eq [] (d ∷ w) = false
word_eq (c ∷ v) [] = false
word_eq (c ∷ v) (d ∷ w) = c == d && word_eq v w

contains_in : List ℕ → Option Node → Bool
contains_in rest none = false
contains_in rest (some n) = contains rest n

pub get_child-put_child :
    (c d : ℕ) (m : Node) (ks : Children)
    → get_child d (put_child c m ks) ≡ (if c == d then some m else get_child d ks)
unfolding get_child put_child
get_child-put_child c d m nil = refl
get_child-put_child c d m (child x n ks) = ground (arith, get_child-put_child c d m ks)

pub get_child-erase_child :
    (c d : ℕ) (ks : Children)
    → get_child d (erase_child c ks) ≡ (if c == d then none else get_child d ks)
unfolding get_child erase_child
get_child-erase_child c d nil = ground arith
get_child-erase_child c d (child x n ks) = ground (arith, get_child-erase_child c d ks)

contains-mark :
    (v : List ℕ) (b : Bool) (n : Node) → contains v (mark b n) ≡ (word_eq v [] && b) || contains v n
contains-mark [] true (node c ks) = refl
contains-mark [] false (node c ks) = refl
contains-mark (x ∷ v) b (node c ks) = refl

-- The words below a character, in both of their forms.
contains-cons :
    (c : ℕ) (v : List ℕ) (b : Bool) (ks : Children)
    → contains (c ∷ v) (node b ks) ≡ contains_in v (get_child c ks)
unfolding contains_in
contains-cons c v b ks = elim (Option-cases (get_child c ks)) [
  | inl e ↦ rw (e, contains, contains_in)
  | inr (n, e) ↦ rw (e, contains, contains_in)
]

contains-add_child :
    (v : List ℕ) (c : ℕ) (b : Bool) (ks : Children)
    → contains v (add_child c b ks) ≡ (word_eq v [] && b) || contains_in v (get_child c ks)
unfolding add_child contains_in
contains-add_child v c b ks = elim (Option-cases (get_child c ks)) [
  | inl e ↦ rw e (fresh v b)
  | inr (n, e) ↦ rw e (contains-mark v b n)
]
  where
    fresh : (v : List ℕ) (b : Bool) → contains v (node b nil) ≡ (word_eq v [] && b) || false
    fresh [] true = refl
    fresh [] false = refl
    fresh (x ∷ v) b = unfold get_child in refl

-- A word goes into the child that was put under its first character, or where it went before.
contains-put_child :
    (v : List ℕ) (d c : ℕ) (b : Bool) (m : Node) (ks : Children)
    → contains (d ∷ v) (node b (put_child c m ks))
      ≡ (if c == d then contains v m else contains_in v (get_child d ks))
unfolding contains_in
contains-put_child v d c b m ks =
    contains-cons d v b (put_child c m ks)
    ∙ ap (contains_in v) (get_child-put_child c d m ks)
    ∙ push (c == d)
  where
    push :
        (t : Bool)
        → contains_in v (if t then some m else get_child d ks)
          ≡ (if t then contains v m else contains_in v (get_child d ks))
    push true = refl
    push false = refl

insert_step :
    (v : List ℕ) (d c : ℕ) (b : Bool) (m : Node) (ks : Children) (r : Bool)
    → contains v m ≡ r || contains_in v (get_child c ks)
    → contains (d ∷ v) (node b (put_child c m ks)) ≡ ((d == c && r) || contains (d ∷ v) (node b ks))
insert_step v d c b m ks r e =
    contains-put_child v d c b m ks ∙ rw (contains-cons d v b ks) (split (c == d) refl)
  where
    split :
        (t : Bool)
        → (c == d) ≡ t
        → (if t then contains v m else contains_in v (get_child d ks))
          ≡ ((d == c && r) || contains_in v (get_child d ks))
    split true same =
        let p : c ≡ d = ground arith in
        let self : (c == c) ≡ true = ground arith in
        subst (λ z. contains v m ≡ ((z == c && r) || contains_in v (get_child z ks))) p (rw self e)
    split false other = let ne : (d == c) ≡ false = ground arith in rw ne

-- insert adds the word, and changes nothing for any other.
contains-insert :
    (c : ℕ) (w v : List ℕ) (t : Node)
    → contains v (insert c w t) ≡ (word_eq v (c ∷ w) || contains v t)
unfolding insert
contains-insert c [] [] (node b ks) = refl
contains-insert c [] (d ∷ v) (node b ks) =
    insert_step v d c b _ ks (word_eq v []) (contains-add_child v c true ks ∙ ground arith)
contains-insert c (x ∷ w) [] (node b ks) = refl
contains-insert c (x ∷ w) (d ∷ v) (node b ks) = insert_step v d c b _ ks (word_eq v (x ∷ w)) (
    contains-insert x w v (add_child c false ks)
    ∙ ap (λ t. word_eq v (x ∷ w) || t) (contains-add_child v c false ks ∙ ground arith))

pub some_inj {ℓ} : {A : Type ℓ} {a b : A} → some a ≡ some b → a ≡ b
some_inj e = cc

pub none-some {ℓ} : {A : Type ℓ} {a : A} → none ≡ some a → ⊥
none-some e = cc

contains_dead : (v : List ℕ) (n : Node) → is_dead n ≡ true → contains v n ≡ false
contains_dead v (node true ks) h = absurd (cc)
contains_dead [] (node false nil) h = refl
contains_dead (c ∷ v) (node false nil) h = unfold get_child in refl
contains_dead v (node false (child c n ks)) h = absurd (cc)

contains-erase_child :
    (v : List ℕ) (d c : ℕ) (b : Bool) (ks : Children)
    → contains (d ∷ v) (node b (erase_child c ks))
      ≡ (if c == d then false else contains_in v (get_child d ks))
unfolding contains_in
contains-erase_child v d c b ks =
    contains-cons d v b (erase_child c ks)
    ∙ ap (contains_in v) (get_child-erase_child c d ks)
    ∙ push (c == d)
  where
    push :
        (t : Bool)
        → contains_in v (if t then none else get_child d ks)
          ≡ (if t then false else contains_in v (get_child d ks))
    push true = refl
    push false = refl

contains-prune :
    (v : List ℕ) (d c : ℕ) (b : Bool) (n : Node) (ks : Children)
    → contains (d ∷ v) (node b (prune c n ks))
      ≡ (if c == d then contains v n else contains_in v (get_child d ks))
contains-prune v d c b n ks = elim (Bool-cases (is_dead n)) [
  | inl e ↦ rw e (rw (contains_dead v n e) (contains-erase_child v d c b ks))
  | inr e ↦ rw e (contains-put_child v d c b n ks)
]

remove_step :
    (v w : List ℕ) (d c : ℕ) (b : Bool) (n n' : Node) (ks : Children)
    → get_child c ks ≡ some n
    → contains v n' ≡ (not (word_eq v w) && contains v n)
    → contains (d ∷ v) (node b (prune c n' ks))
      ≡ (not (d == c && word_eq v w) && contains (d ∷ v) (node b ks))
remove_step v w d c b n n' ks here e =
    contains-prune v d c b n' ks ∙ rw (contains-cons d v b ks) (split (c == d) refl)
  where
    inside : contains_in v (get_child c ks) ≡ contains v n
    inside = unfold contains_in in rw (here, contains_in)

    split :
        (t : Bool)
        → (c == d) ≡ t
        → (if t then contains v n' else contains_in v (get_child d ks))
          ≡ (not (d == c && word_eq v w) && contains_in v (get_child d ks))
    split true same =
        let p : c ≡ d = ground arith in
        let self : (c == c) ≡ true = ground arith in
        subst (λ z. contains v n' ≡ (not (z == c && word_eq v w) && contains_in v (get_child z ks)))
          p (rw (self, inside) e)
    split false other = let ne : (d == c) ≡ false = ground arith in rw ne

remove_path-contains :
    (w : List ℕ) (t t' : Node) (v : List ℕ)
    → remove_path w t ≡ some t'
    → contains v t' ≡ (not (word_eq v w) && contains v t)
unfolding remove_path
remove_path-contains [] (node b ks) t' v h = rw (← some_inj h) (last v)
  where
    last :
        (v : List ℕ) → contains v (node false ks) ≡ (not (word_eq v []) && contains v (node b ks))
    last [] = refl
    last (d ∷ v) = refl
remove_path-contains (c ∷ w) (node b ks) t' v h = elim (Option-cases (get_child c ks)) [
  | inl e ↦ absurd (none-some (rw (e, remove_path) at h))
  | inr (n, e) ↦ elim (Option-cases (remove_path w n)) [
    | inl f ↦ absurd (none-some (rw (e, f, remove_path) at h))
    | inr (n', f) ↦
        rw (← some_inj (rw (e, f, remove_path) at h))
          (step v n n' e (λ u. remove_path-contains w n n' u f))
  ]
]
  where
    step :
        (v : List ℕ) (n n' : Node)
        → get_child c ks ≡ some n
        → ((u : List ℕ) → contains u n' ≡ (not (word_eq u w) && contains u n))
        → contains v (node b (prune c n' ks)) ≡ (not (word_eq v (c ∷ w)) && contains v (node b ks))
    step [] n n' e f = refl
    step (d ∷ v) n n' e f = remove_step v w d c b n n' ks e (f v)

remove_path-none : (w : List ℕ) (t : Node) → remove_path w t ≡ none → contains w t ≡ false
unfolding remove_path
remove_path-none [] (node b ks) h = absurd (none-some (sym h))
remove_path-none (c ∷ w) (node b ks) h = elim (Option-cases (get_child c ks)) [
  | inl e ↦ rw (e, contains)
  | inr (n, e) ↦ elim (Option-cases (remove_path w n)) [
    | inl f ↦ rw (e, contains) (remove_path-none w n f)
    | inr (n', f) ↦ absurd (none-some (sym (rw (e, f, remove_path) at h)))
  ]
]

word_eq_iff : (v w : List ℕ) → word_eq v w ≡ true → v ≡ w
word_eq_iff [] [] h = refl
word_eq_iff [] (d ∷ w) h = absurd (cc)
word_eq_iff (c ∷ v) [] h = absurd (cc)
word_eq_iff (c ∷ v) (d ∷ w) h = ground (arith, word_eq_iff v w)

-- remove takes the word away, if it is there, and changes nothing for any other; and it prunes no
-- branch that leads to a word.
contains-remove :
    (w v : List ℕ) (t : Node) → contains v (remove w t) ≡ (not (word_eq v w) && contains v t)
contains-remove w v t = elim (Option-cases (remove_path w t)) [
  | inl e ↦ unfold remove in rw (e, remove) (gone (word_eq v w) refl e)
  | inr (t', e) ↦ unfold remove in rw (e, remove) (remove_path-contains w t t' v e)
]
  where
    gone :
        (b : Bool)
        → word_eq v w ≡ b
        → remove_path w t ≡ none
        → contains v t ≡ (not (word_eq v w) && contains v t)
    gone true same e =
        let p : v ≡ w = word_eq_iff v w same in rw same (rw p (remove_path-none w t e))
    gone false other e = rw other

-- A tree holds a set of names: insert adds its name to the set and remove takes its name out, if it
-- is there; neither changes anything for another name.
pub contains-insert-remove :
    (c : ℕ) (w u v : List ℕ) (t : Node)
    → (contains v (insert c w t) ≡ (word_eq v (c ∷ w) || contains v t))
      × (contains v (remove u t) ≡ (not (word_eq v u) && contains v t))
contains-insert-remove c w u v t = (contains-insert c w v t, contains-remove u v t)
