-- ===== src/Item/Laws.antt =====
-- What reading an attribute finds after the attributes were written.
use tibia_server.Base.{
  ℕ, Bool, true, false, ◌||◌, List, [], ◌∷◌, Option, none, some, ◌==◌, ◌≡◌, refl, ap, sym, ◌∙◌,
  arith, if◌then◌else◌, Bool-cases, inl, inr, clash,
}
use tibia_server.Item.{
  Attribute, Attributes, find_attr, get_existing_attr, empty_attribute, change_attr, get_attr,
  erase_attr, set_bit, remove_attribute, is_str_attr_type, is_int_attr_type,
}

unfoldable pub has_type : ℕ → List Attribute → Bool
has_type k [] = false
has_type k (x ∷ xs) = if x.type == k then true else has_type k xs

abbrev pub OneOfEach : List Attribute → Type 0
OneOfEach [] = Unit
OneOfEach (x ∷ xs) = (has_type x.type xs ≡ false) × OneOfEach xs

abbrev pub is_attr_type : ℕ → Bool
is_attr_type k = is_str_attr_type k || is_int_attr_type k

-- The bits say which types the list has; it has each once, and only those of the enumeration.
pub record IsHeld (a : Attributes) : Type 0 where
  pub bits : (k : ℕ) → a.attribute_bits k ≡ has_type k a.attributes
  pub once : OneOfEach a.attributes
  pub known : (k : ℕ) → has_type k a.attributes ≡ true → is_attr_type k ≡ true

pub at_same {ℓ} : {A : Type ℓ} → (n m : ℕ) (g : ℕ → A) → (m == n) ≡ true → g n ≡ g m
at_same n m g e = let s : n ≡ m = ground (arith, e) in ap g s

pub missing-find_attr :
    (k : ℕ) (xs : List Attribute) → has_type k xs ≡ false → find_attr k xs ≡ none
unfolding has_type find_attr
missing-find_attr k [] h = refl
missing-find_attr k (x ∷ xs) h = ground (arith, h, missing-find_attr k xs)

-- What is found does not depend on the bits.
pub held-get_existing_attr :
    (n : ℕ) (a : Attributes) → IsHeld a → get_existing_attr n a ≡ find_attr n a.attributes
unfolding get_existing_attr
held-get_existing_attr n a h = elim (Bool-cases (a.attribute_bits n)) [
  | inl e ↦ rw (get_existing_attr, e) refl
  | inr e ↦ rw (get_existing_attr, e) (sym (missing-find_attr n a.attributes (sym (h.bits n) ∙ e)))
]

abbrev pub or_empty : ℕ → Option Attribute → Attribute
or_empty k none = empty_attribute k
or_empty k (some x) = x

module _ (k : ℕ) (f : Attribute → Attribute) (keeps : (x : Attribute) → (f x).type ≡ x.type) where
  record IsChanged (xs ys : List Attribute) : Type 0 where
    same_types : (n : ℕ) → has_type n ys ≡ has_type n xs
    once : OneOfEach xs → OneOfEach ys
    found :
        (n : ℕ)
        → find_attr n ys
          ≡ (if k == n then some (f (or_empty k (find_attr k xs))) else find_attr n xs)

  change_attr-IsChanged :
      (xs : List Attribute)
      → has_type k xs ≡ true
      → (ys : List Attribute) × (change_attr k f xs ≡ some ys) × IsChanged xs ys
  unfolding has_type find_attr change_attr
  change_attr-IsChanged [] h = absurd (clash h)
  change_attr-IsChanged (x ∷ xs) h = elim (Bool-cases (x.type == k)) [
    | inl e ↦ (
      f x ∷ xs,
      rw e refl,
      record {
        same_types = λ n. rw (keeps x) refl;
        once = λ o. rw (keeps x) o;
        found = λ n.
            ap (λ t. if t == n then some (f x) else find_attr n xs) (keeps x)
            ∙ rw e (ground (arith, e));
      },
    )
    | inr e ↦
        let (ys, made, c) = change_attr-IsChanged xs (rw e at h) in
        (
          x ∷ ys,
          rw (e, made) refl,
          record {
            same_types = λ n. rw (c.same_types n) refl;
            once = λ o. (c.same_types x.type ∙ o.0, c.once o.1);
            found = λ n. rw e (ground (arith, e, c.found n));
          },
        )
  ]

  -- What is found behind the write of getAttr's caller.
  pub record IsWritten (a a' : Attributes) : Type 0 where
    pub found :
        (n : ℕ)
        → find_attr n a'.attributes ≡ (
            if k == n
            then some (f (or_empty k (find_attr k a.attributes)))
            else find_attr n a.attributes)
    pub bits : (n : ℕ) → a'.attribute_bits n ≡ (if k == n then true else a.attribute_bits n)
    pub held : IsHeld a'

  changed-IsWritten :
      (a : Attributes) (ys : List Attribute)
      → IsHeld a
      → a.attribute_bits k ≡ true
      → IsChanged a.attributes ys
      → IsWritten a (record a { attributes = ys })
  changed-IsWritten a ys h e c = record {
    found = c.found;
    bits = λ n. ground (arith, e, at_same n k a.attribute_bits);
    held = record {
      bits = λ n. h.bits n ∙ sym (c.same_types n);
      once = c.once h.once;
      known = λ n t. h.known n (sym (c.same_types n) ∙ t);
    };
  }

  added-IsWritten :
      (a : Attributes)
      → IsHeld a
      → is_attr_type k ≡ true
      → a.attribute_bits k ≡ false
      → IsWritten a (record {
        attributes = f (empty_attribute k) ∷ a.attributes;
        attribute_bits = set_bit k true a.attribute_bits;
      })
  unfolding has_type find_attr
  added-IsWritten a h ok e = record {
    found = λ n.
        ap (λ t. if t == n then some (f (empty_attribute k)) else find_attr n a.attributes)
          (keeps (empty_attribute k))
        ∙ rw (missing-find_attr k a.attributes (sym (h.bits k) ∙ e)) refl;
    bits = λ n. ground arith;
    held = record {
      bits = λ n. rw (keeps (empty_attribute k)) (ground (arith, h.bits n));
      once = (rw (keeps (empty_attribute k)) (sym (h.bits k) ∙ e), h.once);
      known = λ n t. elim (Bool-cases (k == n)) [
        | inl s ↦ let same : n ≡ k = ground (arith, s) in ap is_attr_type same ∙ ok
        | inr s ↦ h.known n (rw (keeps (empty_attribute k), s) at t)
      ];
    };
  }

  pub get_attr-IsWritten :
      (a : Attributes) → IsHeld a → is_attr_type k ≡ true → IsWritten a (get_attr k f a)
  unfolding get_attr
  get_attr-IsWritten a h ok = elim (Bool-cases (a.attribute_bits k)) [
    | inl e ↦
        let (ys, made, c) = change_attr-IsChanged a.attributes (sym (h.bits k) ∙ e) in
        rw (get_attr, e, made) (changed-IsWritten a ys h e c)
    | inr e ↦ rw (get_attr, e) (added-IsWritten a h ok e)
  ]

-- What an erasure leaves.
record IsErased (k : ℕ) (xs ys : List Attribute) : Type 0 where
  types : (n : ℕ) → has_type n ys ≡ (if k == n then false else has_type n xs)
  once : OneOfEach ys
  found : (n : ℕ) → find_attr n ys ≡ (if k == n then none else find_attr n xs)

erase_attr-IsErased : (k : ℕ) (xs : List Attribute) → OneOfEach xs → IsErased k xs (erase_attr k xs)
unfolding has_type find_attr erase_attr
erase_attr-IsErased k [] o = record {
  types = λ n. ground arith;
  once = tt;
  found = λ n. ground arith;
}
erase_attr-IsErased k (x ∷ xs) o =
    let r = erase_attr-IsErased k xs o.1 in
    elim (Bool-cases (x.type == k)) [
      | inl e ↦
          let same : x.type ≡ k = ground (arith, e) in
          let out : has_type k xs ≡ false = ap (λ t. has_type t xs) (sym same) ∙ o.0 in
          rw e (record {
            types = λ n. elim (Bool-cases (k == n)) [
              | inl s ↦ rw s (at_same n k (λ t. has_type t xs) s ∙ out)
              | inr s ↦ rw s (ground (arith, e, s))
            ];
            once = o.1;
            found = λ n. elim (Bool-cases (k == n)) [
              | inl s ↦ rw s (at_same n k (λ t. find_attr t xs) s ∙ missing-find_attr k xs out)
              | inr s ↦ rw s (ground (arith, e, s))
            ];
          })
      | inr e ↦ rw e (record {
        types = λ n. ground (arith, r.types n, e);
        once = (r.types x.type ∙ ground (arith, o.0), r.once);
        found = λ n. ground (arith, r.found n, e);
      })
    ]

pub record IsRemoved (k : ℕ) (a a' : Attributes) : Type 0 where
  pub found :
      (n : ℕ) → find_attr n a'.attributes ≡ (if k == n then none else find_attr n a.attributes)
  pub bits : (n : ℕ) → a'.attribute_bits n ≡ (if k == n then false else a.attribute_bits n)
  pub held : IsHeld a'

pub remove_attribute-IsRemoved :
    (k : ℕ) (a : Attributes) → IsHeld a → IsRemoved k a (remove_attribute k a)
unfolding remove_attribute
remove_attribute-IsRemoved k a h = elim (Bool-cases (a.attribute_bits k)) [
  | inr e ↦
      rw (remove_attribute, e)
        (record {
          found = λ n. elim (Bool-cases (k == n)) [
            | inl s ↦ rw s (
                at_same n k (λ t. find_attr t a.attributes) s
                ∙ missing-find_attr k a.attributes (sym (h.bits k) ∙ e))
            | inr s ↦ rw s refl
          ];
          bits = λ n. elim (Bool-cases (k == n)) [
            | inl s ↦ rw s (at_same n k a.attribute_bits s ∙ e)
            | inr s ↦ rw s refl
          ];
          held = h;
        })
  | inl e ↦
      let r = erase_attr-IsErased k a.attributes h.once in
      rw (remove_attribute, e)
        (record {
          found = r.found;
          bits = λ n. ground arith;
          held = record {
            bits = λ n. ground (arith, r.types n, h.bits n);
            once = r.once;
            known = λ n t. h.known n (ground (arith, r.types n, t));
          };
        })
]
