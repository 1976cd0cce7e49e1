-- ===== src/Item/Equality.antt =====
-- Item::equals compares all that can be read of the attributes.
use tibia_server.Base.{
  is_some, ℕ, zero, suc, ◌<◌, Bool, true, false, not, ◌&&◌, List, [], ◌∷◌, Option, none, some, ◌==◌,
  ◌≡◌, ◌↔◌, refl, ap, ap₂, sym, ◌∙◌, arith, if◌then◌else◌, Bool-cases, Option-cases, inl, inr,
  clash,
}
use tibia_server.Item.{
  Item, equals, Attribute, Attributes, has_attribute, find_attr, get_str_attr, get_int_attr,
  is_str_attr_type, is_int_attr_type, same_string, same_value, agrees_with, all_agree, same_bits,
  attribute_types, equal_attributes, integer_of, string_of,
}
use tibia_server.Item.Laws.{has_type, OneOfEach, is_attr_type, IsHeld, at_same, missing-find_attr}
use tibia_server.Item.Reading.{get_int_attr-find, get_str_attr-find}

both : (b c : Bool) → b && c ≡ true → (b ≡ true) × (c ≡ true)
both true c e = (refl, e)
both false c e = absurd (clash e)

same_string-eq : (xs ys : List ℕ) → same_string xs ys ≡ true → xs ≡ ys
unfolding same_string
same_string-eq [] [] e = refl
same_string-eq [] (y ∷ ys) e = absurd (clash e)
same_string-eq (x ∷ xs) [] e = absurd (clash e)
same_string-eq (x ∷ xs) (y ∷ ys) e =
    let r = both (x == y) (same_string xs ys) e in
    ap₂ (λ z zs. z ∷ zs) (ground (arith, r.0)) (same_string-eq xs ys r.1)

same_string_self : (xs : List ℕ) → same_string xs xs ≡ true
unfolding same_string
same_string_self [] = refl
same_string_self (x ∷ xs) = ground (arith, same_string_self xs)

same_bits-below : (n : ℕ) (f g : ℕ → Bool) → same_bits n f g ≡ true → (k : ℕ) → k < n → f k ≡ g k
unfolding same_bits
same_bits-below zero f g e k h = absurd (omega (arith, h))
same_bits-below (suc n) f g e k h =
    let r = both (if f n then g n else not (g n)) (same_bits n f g) e in
    elim (Bool-cases (n == k)) [
      | inl s ↦ at_same k n f s ∙ bit_eq (f n) (g n) r.0 ∙ sym (at_same k n g s)
      | inr s ↦ same_bits-below n f g r.1 k (ground (arith, s, h))
    ]
  where
    bit_eq : (b c : Bool) → (if b then c else not c) ≡ true → b ≡ c
    bit_eq true c e = sym e
    bit_eq false true e = e
    bit_eq false false e = refl

same_bits-all : (n : ℕ) (f g : ℕ → Bool) → ((k : ℕ) → f k ≡ g k) → same_bits n f g ≡ true
unfolding same_bits
same_bits-all zero f g h = refl
same_bits-all (suc n) f g h = ground (arith, h n, same_bits-all n f g h)

-- The test on what the other list has under the type.
abbrev agree_found : Attribute → Option Attribute → Bool
agree_found x none = true
agree_found x (some y) = same_value x y

unless : (b c : Bool) → b ≡ true → (if b && not c then false else true) ≡ c
unless true true e = refl
unless true false e = refl
unless false c e = absurd (clash e)

abbrev agree_options : Option Attribute → Option Attribute → Bool
agree_options none q = true
agree_options (some x) q = agree_found x q

agrees_with-find :
    (x : Attribute) (ys : List Attribute)
    → OneOfEach ys
    → agrees_with x ys ≡ agree_found x (find_attr x.type ys)
unfolding agrees_with find_attr has_type
agrees_with-find x [] o = refl
agrees_with-find x (y ∷ ys) o = elim (Bool-cases (y.type == x.type)) [
  | inl s ↦
      let out : has_type x.type ys ≡ false = at_same x.type y.type (λ t. has_type t ys) s ∙ o.0 in
      let rest : agrees_with x ys ≡ true =
        agrees_with-find x ys o.1 ∙ ap (agree_found x) (missing-find_attr x.type ys out) in
      rw (s, rest) (unless (x.type == y.type) (same_value x y) (ground (arith, s)))
  | inr s ↦ rw s (ground (arith, s, agrees_with-find x ys o.1))
]

found_type : (k : ℕ) (xs : List Attribute) (x : Attribute) → find_attr k xs ≡ some x → x.type ≡ k
unfolding find_attr
found_type k [] x e = absurd (no_attribute e)
  where
    no_attribute : none ≡ some x → ⊥
    no_attribute e = cc
found_type k (y ∷ ys) x e = elim (Bool-cases (y.type == k)) [
  | inl s ↦ sym (ap type_of (rw s at e)) ∙ ground (arith, s)
  | inr s ↦ found_type k ys x (rw s at e)
]
  where
    type_of : Option Attribute → ℕ
    type_of none = 0
    type_of (some z) = z.type

all_agree-found :
    (xs ys : List Attribute)
    → OneOfEach ys
    → all_agree xs ys ≡ true
    → (k : ℕ) (x : Attribute) → find_attr k xs ≡ some x
    → agree_found x (find_attr k ys) ≡ true
unfolding all_agree find_attr
all_agree-found [] ys o e k x f = absurd (no_attribute f)
  where
    no_attribute : none ≡ some x → ⊥
    no_attribute e = cc
all_agree-found (z ∷ zs) ys o e k x f =
    let r = both (agrees_with z ys) (all_agree zs ys) e in
    elim (Bool-cases (z.type == k)) [
      | inl s ↦ at_found (rw s at f) (ground (arith, s)) (sym (agrees_with-find z ys o) ∙ r.0)
      | inr s ↦ all_agree-found zs ys o r.1 k x (rw s at f)
    ]
  where
    at_found :
        some z ≡ some x
        → z.type ≡ k
        → agree_found z (find_attr z.type ys) ≡ true
        → agree_found x (find_attr k ys) ≡ true
    at_found e s h =
        sym (ap (λ c. agree_options c (find_attr k ys)) e)
        ∙ ap (λ t. agree_found z (find_attr t ys)) (sym s)
        ∙ h

all_agree-all :
    (xs ys : List Attribute)
    → OneOfEach xs
    → OneOfEach ys
    → ((k : ℕ) (x : Attribute) → find_attr k xs ≡ some x → agree_found x (find_attr k ys) ≡ true)
    → all_agree xs ys ≡ true
unfolding all_agree find_attr has_type
all_agree-all [] ys o h f = refl
all_agree-all (z ∷ zs) ys o h f = ground (
  arith,
  agrees_with-find z ys h ∙ f z.type z (rw (==_self z.type) refl),
  all_agree-all zs ys o.1 h (λ k x e. elim (Bool-cases (z.type == k)) [
    | inl s ↦ absurd (
        none_some
          (sym (missing-find_attr k zs (at_same k z.type (λ t. has_type t zs) s ∙ o.0)) ∙ e))
    | inr s ↦ f k x (rw s e)
  ]),
)
  where
    ==_self : (n : ℕ) → (n == n) ≡ true
    ==_self n = ground arith

    none_some : {x : Attribute} → none ≡ some x → ⊥
    none_some e = cc

has_type-find : (k : ℕ) (xs : List Attribute) → has_type k xs ≡ is_some (find_attr k xs)
unfolding has_type find_attr
has_type-find k [] = refl
has_type-find k (x ∷ xs) = ground (arith, has_type-find k xs)

-- All that can be read of two items' attributes is the same.
pub record SameAttributes (a b : Attributes) : Type 0 where
  pub same_has : (k : ℕ) → has_attribute k a ≡ has_attribute k b
  pub same_ints : (k : ℕ) → get_int_attr k a ≡ get_int_attr k b
  pub same_strs : (k : ℕ) → get_str_attr k a ≡ get_str_attr k b

same_readings :
    (k : ℕ) (p q : Option Attribute)
    → ((x : Attribute) → p ≡ some x → x.type ≡ k)
    → is_some p ≡ is_some q
    → agree_options p q ≡ true
    → (is_int_attr_type k ≡ true → integer_of p ≡ integer_of q)
      × (is_str_attr_type k ≡ true → string_of p ≡ string_of q)
same_readings k none none typed s e = (λ i. refl, λ i. refl)
same_readings k none (some y) typed s e = absurd (clash s)
same_readings k (some x) none typed s e = absurd (clash (sym s))
same_readings k (some x) (some y) typed s e = (
  λ i. integers (ap is_str_attr_type (typed x refl) ∙ ground (arith, i)),
  λ i. strings (ap is_str_attr_type (typed x refl) ∙ i),
)
  where
    integers : is_str_attr_type x.type ≡ false → x.integer ≡ y.integer
    integers n = ground (arith, rw n at e)

    strings : is_str_attr_type x.type ≡ true → x.string ≡ y.string
    strings i = same_string-eq x.string y.string (rw i at e)

module _ (a b : Attributes) (ha : IsHeld a) (hb : IsHeld b) where
  unknown_type :
      (c : Attributes) → IsHeld c → (k : ℕ) → is_attr_type k ≡ false → c.attribute_bits k ≡ false
  unknown_type c hc k n = elim (Bool-cases (has_type k c.attributes)) [
    | inl t ↦ absurd (clash (sym n ∙ hc.known k t))
    | inr t ↦ hc.bits k ∙ t
  ]

  SameAttributes-equal : equal_attributes (some a) (some b) ≡ true → SameAttributes a b
  SameAttributes-equal e = record {
    same_has = has;
    same_ints = λ k.
        get_int_attr-find k a ha
        ∙ int_at k (is_int_attr_type k) refl
        ∙ sym (get_int_attr-find k b hb);
    same_strs = λ k.
        get_str_attr-find k a ha
        ∙ str_at k (is_str_attr_type k) refl
        ∙ sym (get_str_attr-find k b hb);
  }
    where
      parts :
          (same_bits attribute_types a.attribute_bits b.attribute_bits ≡ true)
          × (all_agree a.attributes b.attributes ≡ true)
      parts = both _ _ e

      has : (k : ℕ) → a.attribute_bits k ≡ b.attribute_bits k
      has k = elim (Bool-cases (is_attr_type k)) [
        | inl t ↦
            same_bits-below attribute_types a.attribute_bits b.attribute_bits parts.0 k
              (ground (arith, t))
        | inr t ↦ unknown_type a ha k t ∙ sym (unknown_type b hb k t)
      ]

      agreed : (k : ℕ) → agree_options (find_attr k a.attributes) (find_attr k b.attributes) ≡ true
      agreed k = elim (Option-cases (find_attr k a.attributes)) [
        | inl f ↦ rw f refl
        | inr (x, f) ↦ rw f (all_agree-found a.attributes b.attributes hb.once parts.1 k x f)
      ]

      readings :
          (k : ℕ)
          → (is_int_attr_type k ≡ true
              → integer_of (find_attr k a.attributes) ≡ integer_of (find_attr k b.attributes))
            × (is_str_attr_type k ≡ true
                → string_of (find_attr k a.attributes) ≡ string_of (find_attr k b.attributes))
      readings k =
          same_readings k (find_attr k a.attributes) (find_attr k b.attributes)
            (λ x f. found_type k a.attributes x f)
            (sym (has_type-find k a.attributes)
              ∙ sym (ha.bits k)
              ∙ has k
              ∙ hb.bits k
              ∙ has_type-find k b.attributes)
            (agreed k)

      int_at :
          (k : ℕ) (i : Bool)
          → is_int_attr_type k ≡ i
          → (if i then integer_of (find_attr k a.attributes) else 0)
            ≡ (if i then integer_of (find_attr k b.attributes) else 0)
      int_at k false e = refl
      int_at k true e = (readings k).0 e

      str_at :
          (k : ℕ) (i : Bool)
          → is_str_attr_type k ≡ i
          → (if i then string_of (find_attr k a.attributes) else [])
            ≡ (if i then string_of (find_attr k b.attributes) else [])
      str_at k false e = refl
      str_at k true e = (readings k).1 e

  equal-SameAttributes : SameAttributes a b → equal_attributes (some a) (some b) ≡ true
  equal-SameAttributes s =
      ap₂ (λ x y. x && y)
        (same_bits-all attribute_types a.attribute_bits b.attribute_bits s.same_has)
        (all_agree-all a.attributes b.attributes ha.once hb.once
          (λ k x f. agreed k x f (find_attr k b.attributes) refl))
    where
      agreed :
          (k : ℕ) (x : Attribute)
          → find_attr k a.attributes ≡ some x
          → (q : Option Attribute) → find_attr k b.attributes ≡ q
          → agree_found x q ≡ true
      agreed k x f none g = refl
      agreed k x f (some y) g = elim (Bool-cases (is_str_attr_type k)) [
        | inl i ↦
            let eq : x.string ≡ y.string =
              sym (rw (i, f) at (get_str_attr-find k a ha))
              ∙ s.same_strs k
              ∙ rw (i, g) at (get_str_attr-find k b hb) in
            rw (ap is_str_attr_type (found_type k a.attributes x f) ∙ i)
              (ap (same_string x.string) (sym eq) ∙ same_string_self x.string)
        | inr i ↦
            let known = ha.known k (has_type-find k a.attributes ∙ ap is_some f) in
            let n : is_int_attr_type k ≡ true = ground (arith, known, i) in
            let eq : x.integer ≡ y.integer =
              sym (rw (n, f) at (get_int_attr-find k a ha))
              ∙ s.same_ints k
              ∙ rw (n, g) at (get_int_attr-find k b hb) in
            rw (ap is_str_attr_type (found_type k a.attributes x f) ∙ i) (ground (arith, eq))
      ]

abbrev pub AreHeld : Option Attributes → Type 0
AreHeld none = Unit
AreHeld (some a) = IsHeld a

abbrev pub AreSame : Option Attributes → Option Attributes → Type 0
AreSame none none = Unit
AreSame none (some b) = ⊥
AreSame (some a) none = ⊥
AreSame (some a) (some b) = SameAttributes a b

equal_attributes-AreSame :
    (p q : Option Attributes) → AreHeld p → AreHeld q → (equal_attributes p q ≡ true) ↔ AreSame p q
equal_attributes-AreSame none none hp hq = (λ e. tt, λ s. refl)
equal_attributes-AreSame none (some b) hp hq = (λ e. clash e, λ s. absurd s)
equal_attributes-AreSame (some a) none hp hq = (λ e. clash e, λ s. absurd s)
equal_attributes-AreSame (some a) (some b) hp hq =
    (SameAttributes-equal a b hp hq, equal-SameAttributes a b hp hq)

-- Where the bits and the list of each item's attributes agree, Item::equals holds of two items just
-- if they have one id and either no attributes at all or the same types of attributes, with the same
-- integer and the same string read under every type.
pub equals-AreSame :
    (x y : Item)
    → AreHeld x.attributes
    → AreHeld y.attributes
    → (equals x y ≡ true) ↔ ((x.id ≡ y.id) × AreSame x.attributes y.attributes)
unfolding equals
equals-AreSame x y hx hy = elim (Bool-cases (x.id == y.id)) [
  | inl s ↦
      let r = equal_attributes-AreSame x.attributes y.attributes hx hy in
      rw (equals, s) (λ e. (ground (arith, s), r.0 e), λ q. r.1 q.1)
  | inr s ↦ rw (equals, s) (λ e. absurd (clash e), λ q. absurd (ground (arith, s, q.0)))
]
