-- ===== src/Item/Reading.antt =====
-- What reading the attributes of an item finds after they were written.
use tibia_server.Base.{
  ℕ, ◌+◌, ◌%◌, Bool, true, false, not, ◌&&◌, List, [], ◌∷◌, Option, none, some, ◌==◌, ◌≡◌, refl, ap,
  sym, ◌∙◌, arith, if◌then◌else◌, Bool-cases, inl, inr,
}
use tibia_server.Item.{
  Attribute, Attributes, find_attr, get_attr, remove_attribute, get_str_attr, set_str_attr,
  get_int_attr, set_int_attr, increase_int_attr, is_str_attr_type, is_int_attr_type, u64_mod,
  integer_of, string_of,
}
use tibia_server.Item.Laws.{
  IsHeld, or_empty, at_same, held-get_existing_attr, get_attr-IsWritten, remove_attribute-IsRemoved,
}

-- What is read after each write, under the type written and under any other, as an integer and as a
-- string.
pub record ReadsBack (a : Attributes) : Type 0 where
  pub set_int :
      (k n v : ℕ)
      → get_int_attr n (set_int_attr k v a)
        ≡ (if is_int_attr_type k && (k == n) then v else get_int_attr n a)
  pub increased :
      (k n v : ℕ)
      → get_int_attr n (increase_int_attr k v a) ≡ (
          if is_int_attr_type k && (k == n)
          then (get_int_attr n a + v) % u64_mod
          else get_int_attr n a)
  pub set_str :
      (k n c : ℕ) (cs : List ℕ)
      → get_str_attr n (set_str_attr k (c ∷ cs) a)
        ≡ (if is_str_attr_type k && (k == n) then c ∷ cs else get_str_attr n a)
  pub set_int_str : (k n v : ℕ) → get_str_attr n (set_int_attr k v a) ≡ get_str_attr n a
  pub increased_str : (k n v : ℕ) → get_str_attr n (increase_int_attr k v a) ≡ get_str_attr n a
  pub set_str_int : (k n : ℕ) (s : List ℕ) → get_int_attr n (set_str_attr k s a) ≡ get_int_attr n a
  pub set_str_empty : (k n : ℕ) → get_str_attr n (set_str_attr k [] a) ≡ get_str_attr n a
  pub removed_int :
      (k n : ℕ) → get_int_attr n (remove_attribute k a) ≡ (if k == n then 0 else get_int_attr n a)
  pub removed_str :
      (k n : ℕ) → get_str_attr n (remove_attribute k a) ≡ (if k == n then [] else get_str_attr n a)

pub get_int_attr-find :
    (n : ℕ) (a : Attributes)
    → IsHeld a
    → get_int_attr n a ≡ (if is_int_attr_type n then integer_of (find_attr n a.attributes) else 0)
unfolding get_int_attr
get_int_attr-find n a h =
    ap (λ o. if not (is_int_attr_type n) then 0 else integer_of o) (held-get_existing_attr n a h)
    ∙ ground arith

pub get_str_attr-find :
    (n : ℕ) (a : Attributes)
    → IsHeld a
    → get_str_attr n a ≡ (if is_str_attr_type n then string_of (find_attr n a.attributes) else [])
unfolding get_str_attr
get_str_attr-find n a h =
    ap (λ o. if not (is_str_attr_type n) then [] else string_of o) (held-get_existing_attr n a h)
    ∙ ground arith

int_not_str : (k n : ℕ) → is_int_attr_type k ≡ true → (k == n) ≡ true → is_str_attr_type n ≡ false
int_not_str k n e s = ground (arith, e, s)

str_not_int : (k n : ℕ) → is_str_attr_type k ≡ true → (k == n) ≡ true → is_int_attr_type n ≡ false
str_not_int k n e s = ground (arith, e, s)

module _ (a : Attributes) (h : IsHeld a) (k n : ℕ) where
  module _ (f : Attribute → Attribute) (keeps : (x : Attribute) → (f x).type ≡ x.type) where
    int_after :
        is_int_attr_type k ≡ true
        → get_int_attr n (get_attr k f a) ≡ (
            if k == n
            then (f (or_empty k (find_attr k a.attributes))).integer
            else get_int_attr n a)
    int_after e =
        let w = get_attr-IsWritten k f keeps a h (ground (arith, e)) in
        get_int_attr-find n (get_attr k f a) w.held
        ∙ ap (λ o. if is_int_attr_type n then integer_of o else 0) (w.found n)
        ∙ elim (Bool-cases (k == n)) [
          | inl s ↦ rw (s, at_same n k is_int_attr_type s ∙ e) refl
          | inr s ↦ rw s (sym (get_int_attr-find n a h))
        ]

    str_after :
        is_str_attr_type k ≡ true
        → get_str_attr n (get_attr k f a) ≡ (
            if k == n then (f (or_empty k (find_attr k a.attributes))).string else get_str_attr n a)
    str_after e =
        let w = get_attr-IsWritten k f keeps a h (ground (arith, e)) in
        get_str_attr-find n (get_attr k f a) w.held
        ∙ ap (λ o. if is_str_attr_type n then string_of o else []) (w.found n)
        ∙ elim (Bool-cases (k == n)) [
          | inl s ↦ rw (s, at_same n k is_str_attr_type s ∙ e) refl
          | inr s ↦ rw s (sym (get_str_attr-find n a h))
        ]

    -- A write under a type of one kind is not seen by the readers of the other kind.
    str_kept_by_int : is_int_attr_type k ≡ true → get_str_attr n (get_attr k f a) ≡ get_str_attr n a
    str_kept_by_int e =
        let w = get_attr-IsWritten k f keeps a h (ground (arith, e)) in
        get_str_attr-find n (get_attr k f a) w.held
        ∙ ap (λ o. if is_str_attr_type n then string_of o else []) (w.found n)
        ∙ elim (Bool-cases (k == n)) [
          | inl s ↦
              let apart = int_not_str k n e s in
              rw apart (sym (get_str_attr-find n a h ∙ rw apart refl))
          | inr s ↦ rw s (sym (get_str_attr-find n a h))
        ]

    int_kept_by_str : is_str_attr_type k ≡ true → get_int_attr n (get_attr k f a) ≡ get_int_attr n a
    int_kept_by_str e =
        let w = get_attr-IsWritten k f keeps a h (ground (arith, e)) in
        get_int_attr-find n (get_attr k f a) w.held
        ∙ ap (λ o. if is_int_attr_type n then integer_of o else 0) (w.found n)
        ∙ elim (Bool-cases (k == n)) [
          | inl s ↦
              let apart = str_not_int k n e s in
              rw apart (sym (get_int_attr-find n a h ∙ rw apart refl))
          | inr s ↦ rw s (sym (get_int_attr-find n a h))
        ]

  integer_now :
      is_int_attr_type k ≡ true
      → (k == n) ≡ true
      → (or_empty k (find_attr k a.attributes)).integer ≡ get_int_attr n a
  integer_now e s =
      integer_of_empty (find_attr k a.attributes)
      ∙ sym (at_same n k (λ t. get_int_attr t a) s ∙ get_int_attr-find k a h ∙ rw e refl)
    where
      integer_of_empty : (o : Option Attribute) → (or_empty k o).integer ≡ integer_of o
      integer_of_empty none = refl
      integer_of_empty (some x) = refl

attributes-ReadsBack : (a : Attributes) → IsHeld a → ReadsBack a
unfolding set_int_attr increase_int_attr set_str_attr
attributes-ReadsBack a h = record {
  set_int = λ k n v. elim (Bool-cases (is_int_attr_type k)) [
    | inr e ↦ rw (set_int_attr, e) refl
    | inl e ↦ rw (set_int_attr, e) (int_after a h k n (λ x. record x { integer = v }) (λ x. refl) e)
  ];
  increased = λ k n v. elim (Bool-cases (is_int_attr_type k)) [
    | inr e ↦ rw (increase_int_attr, e) refl
    | inl e ↦
        rw (increase_int_attr, e)
          (int_after a h k n (λ x. record x { integer = (x.integer + v) % u64_mod }) (λ x. refl) e
            ∙ elim (Bool-cases (k == n)) [
              | inl s ↦ rw (s, integer_now a h k n e s) refl
              | inr s ↦ rw s refl
            ])
  ];
  set_str = λ k n c cs. elim (Bool-cases (is_str_attr_type k)) [
    | inr e ↦ rw (set_str_attr, e) refl
    | inl e ↦
        rw (set_str_attr, e) (str_after a h k n (λ x. record x { string = c ∷ cs }) (λ x. refl) e)
  ];
  set_int_str = λ k n v. elim (Bool-cases (is_int_attr_type k)) [
    | inr e ↦ rw (set_int_attr, e) refl
    | inl e ↦
        rw (set_int_attr, e) (str_kept_by_int a h k n (λ x. record x { integer = v }) (λ x. refl) e)
  ];
  increased_str = λ k n v. elim (Bool-cases (is_int_attr_type k)) [
    | inr e ↦ rw (increase_int_attr, e) refl
    | inl e ↦
        rw (increase_int_attr, e)
          (str_kept_by_int a h k n (λ x. record x { integer = (x.integer + v) % u64_mod })
            (λ x. refl) e)
  ];
  set_str_int = λ k n s. int_of_str k n s;
  set_str_empty = λ k n. refl;
  removed_int = λ k n.
      let r = remove_attribute-IsRemoved k a h in
      get_int_attr-find n (remove_attribute k a) r.held
      ∙ ap (λ o. if is_int_attr_type n then integer_of o else 0) (r.found n)
      ∙ elim (Bool-cases (k == n)) [
        | inl s ↦ rw s (ground arith)
        | inr s ↦ rw s (sym (get_int_attr-find n a h))
      ];
  removed_str = λ k n.
      let r = remove_attribute-IsRemoved k a h in
      get_str_attr-find n (remove_attribute k a) r.held
      ∙ ap (λ o. if is_str_attr_type n then string_of o else []) (r.found n)
      ∙ elim (Bool-cases (k == n)) [
        | inl s ↦ rw s (ground arith)
        | inr s ↦ rw s (sym (get_str_attr-find n a h))
      ];
}
  where
    int_of_str : (k n : ℕ) (s : List ℕ) → get_int_attr n (set_str_attr k s a) ≡ get_int_attr n a
    int_of_str k n [] = refl
    int_of_str k n (c ∷ cs) = elim (Bool-cases (is_str_attr_type k)) [
      | inr e ↦ rw (set_str_attr, e) refl
      | inl e ↦
          rw (set_str_attr, e)
            (int_kept_by_str a h k n (λ x. record x { string = c ∷ cs }) (λ x. refl) e)
    ]

pub operations-IsHeld :
    (a : Attributes)
    → IsHeld a
    → (k v : ℕ) (s : List ℕ)
    → IsHeld (set_int_attr k v a)
      × IsHeld (increase_int_attr k v a)
      × IsHeld (set_str_attr k s a)
      × IsHeld (remove_attribute k a)
unfolding set_int_attr increase_int_attr set_str_attr
operations-IsHeld a h k v s = (
  int_kept (λ x. record x { integer = v }) (λ x. refl) (is_int_attr_type k) refl,
  int_kept (λ x. record x { integer = (x.integer + v) % u64_mod }) (λ x. refl) (is_int_attr_type k)
      refl,
  str_kept s (is_str_attr_type k) refl,
  (remove_attribute-IsRemoved k a h).held,
)
  where
    int_kept :
        (f : Attribute → Attribute)
        → ((x : Attribute) → (f x).type ≡ x.type)
        → (b : Bool) → is_int_attr_type k ≡ b
        → IsHeld (if not b then a else get_attr k f a)
    int_kept f keeps false e = h
    int_kept f keeps true e = (get_attr-IsWritten k f keeps a h (ground (arith, e))).held

    str_kept : (s : List ℕ) (b : Bool) → is_str_attr_type k ≡ b → IsHeld (set_str_attr k s a)
    str_kept [] b e = h
    str_kept (c ∷ cs) true e =
        rw (set_str_attr, e) (get_attr-IsWritten k _ (λ x. refl) a h (ground (arith, e))).held
    str_kept (c ∷ cs) false e = rw (set_str_attr, e) h

-- Where the bits and the list of the attributes agree, with one entry of each type, every operation
-- keeps that, and reading finds what was last set, increased or removed under the type, while other
-- types keep what they have, be they integers or strings. A write under a type of the other kind, and
-- one of an empty string, changes nothing that is read.
pub operations-ReadBack :
    (a : Attributes) (k v : ℕ) (s : List ℕ)
    → IsHeld a
    → ReadsBack a
      × IsHeld (set_int_attr k v a)
      × IsHeld (increase_int_attr k v a)
      × IsHeld (set_str_attr k s a)
      × IsHeld (remove_attribute k a)
operations-ReadBack a k v s h =
    let kept = operations-IsHeld a h k v s in
    (attributes-ReadsBack a h, kept.0, kept.1, kept.2, kept.3)
