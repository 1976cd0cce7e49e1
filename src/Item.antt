-- ===== src/Item.antt =====
-- The attributes of an item: class ItemAttributes (compiler/src/item.h, item.cpp). The type of an
-- attribute is one bit of the enumeration, and stands here as the number of that bit; the word
-- attributeBits is the set of such numbers. The union of a value is its two readings, since the type
-- says which of them is used. Integers are words of 64 bits.
pub mod Laws
pub mod Reading
pub mod Equality
mod Tests
use tibia_server.Base.{
  ℕ, zero, suc, ◌+◌, ◌%◌, Bool, true, false, not, ◌&&◌, ◌||◌, List, [], ◌∷◌, Option, none, some,
  ◌==◌, leb, if◌then◌else◌,
}

pub record Attribute : Type 0 where
  pub type : ℕ
  pub integer : ℕ
  pub string : List ℕ

pub record Attributes : Type 0 where
  pub attributes : List Attribute
  pub attribute_bits : ℕ → Bool

abbrev pub u64_mod : ℕ
u64_mod = 0x1_0000_0000_0000_0000

abbrev pub no_attributes : Attributes
no_attributes = record { attributes = []; attribute_bits = λ k. false }

-- The bits of 0x1EC and those of 0x7FFE13.
abbrev pub is_str_attr_type : ℕ → Bool
is_str_attr_type k = k == 2 || k == 3 || (leb 5 k && leb k 8)

abbrev pub is_int_attr_type : ℕ → Bool
is_int_attr_type k = k == 0 || k == 1 || k == 4 || (leb 9 k && leb k 22)

abbrev pub has_attribute : ℕ → Attributes → Bool
has_attribute k a = a.attribute_bits k

unfoldable pub find_attr : ℕ → List Attribute → Option Attribute
find_attr k [] = none
find_attr k (x ∷ xs) = if x.type == k then some x else find_attr k xs

unfoldable pub get_existing_attr : ℕ → Attributes → Option Attribute
unfolding find_attr
get_existing_attr k a = if has_attribute k a then find_attr k a.attributes else none

abbrev pub empty_attribute : ℕ → Attribute
empty_attribute k = record { type = k; integer = 0; string = [] }

abbrev pub set_bit : ℕ → Bool → (ℕ → Bool) → ℕ → Bool
set_bit k v bits n = if n == k then v else bits n

-- A write through the reference of getAttr to an entry of the list; `none` where there is none.
unfoldable pub change_attr : ℕ → (Attribute → Attribute) → List Attribute → Option (List Attribute)
change_attr k f [] = none
change_attr k f (x ∷ xs) =
    let rest = change_attr k f xs in if x.type == k then some (f x ∷ xs) else with_head x rest
  where
    with_head : Attribute → Option (List Attribute) → Option (List Attribute)
    with_head x none = none
    with_head x (some ys) = some (x ∷ ys)

-- getAttr, and the write through what it returns.
unfoldable pub get_attr : ℕ → (Attribute → Attribute) → Attributes → Attributes
unfolding change_attr
get_attr k f a = written (if has_attribute k a then change_attr k f a.attributes else none)
  where
    written : Option (List Attribute) → Attributes
    written (some xs) = record a { attributes = xs }
    written none = record {
      attributes = f (empty_attribute k) ∷ a.attributes;
      attribute_bits = set_bit k true a.attribute_bits;
    }

abbrev pub string_of : Option Attribute → List ℕ
string_of none = []
string_of (some x) = x.string

unfoldable pub get_str_attr : ℕ → Attributes → List ℕ
unfolding get_existing_attr
get_str_attr k a = if not (is_str_attr_type k) then [] else string_of (get_existing_attr k a)

unfoldable pub set_str_attr : ℕ → List ℕ → Attributes → Attributes
unfolding get_attr
set_str_attr k [] a = a
set_str_attr k (c ∷ cs) a =
    if not (is_str_attr_type k) then a else get_attr k (λ x. record x { string = c ∷ cs }) a

abbrev pub integer_of : Option Attribute → ℕ
integer_of none = 0
integer_of (some x) = x.integer

unfoldable pub get_int_attr : ℕ → Attributes → ℕ
unfolding get_existing_attr
get_int_attr k a = if not (is_int_attr_type k) then 0 else integer_of (get_existing_attr k a)

unfoldable pub set_int_attr : ℕ → ℕ → Attributes → Attributes
unfolding get_attr
set_int_attr k v a =
    if not (is_int_attr_type k) then a else get_attr k (λ x. record x { integer = v }) a

unfoldable pub increase_int_attr : ℕ → ℕ → Attributes → Attributes
unfolding get_attr
increase_int_attr k v a =
    if not (is_int_attr_type k)
    then a
    else get_attr k (λ x. record x { integer = (x.integer + v) % u64_mod }) a

unfoldable pub erase_attr : ℕ → List Attribute → List Attribute
erase_attr k [] = []
erase_attr k (x ∷ xs) = let rest = erase_attr k xs in if x.type == k then xs else x ∷ rest

unfoldable pub remove_attribute : ℕ → Attributes → Attributes
unfolding erase_attr
remove_attribute k a = if not (has_attribute k a) then a else record {
  attributes = erase_attr k a.attributes;
  attribute_bits = set_bit k false a.attribute_bits;
}

-- What an item holds besides its place: its id, its count and its attributes, which may be none.
pub record Item : Type 0 where
  pub id : ℕ
  pub count : ℕ
  pub attributes : Option Attributes

unfoldable pub same_string : List ℕ → List ℕ → Bool
same_string [] [] = true
same_string (x ∷ xs) (y ∷ ys) = x == y && same_string xs ys
same_string _ _ = false

abbrev pub same_value : Attribute → Attribute → Bool
same_value x y =
    if is_str_attr_type x.type then same_string x.string y.string else x.integer == y.integer

-- The inner loop of Item::equals: no attribute of the other item has the type and another value.
unfoldable pub agrees_with : Attribute → List Attribute → Bool
unfolding same_string
agrees_with x [] = true
agrees_with x (y ∷ ys) =
    let rest = agrees_with x ys in if x.type == y.type && not (same_value x y) then false else rest

unfoldable pub all_agree : List Attribute → List Attribute → Bool
unfolding agrees_with
all_agree [] ys = true
all_agree (x ∷ xs) ys = agrees_with x ys && all_agree xs ys

-- The words of attributeBits are compared bit by bit, over the bits of the enumeration.
unfoldable pub same_bits : ℕ → (ℕ → Bool) → (ℕ → Bool) → Bool
same_bits zero f g = true
same_bits (suc n) f g = (if f n then g n else not (g n)) && same_bits n f g

abbrev pub attribute_types : ℕ
attribute_types = 23

abbrev pub equal_attributes : Option Attributes → Option Attributes → Bool
equal_attributes none none = true
equal_attributes none (some b) = false
equal_attributes (some a) none = false
equal_attributes (some a) (some b) =
    same_bits attribute_types a.attribute_bits b.attribute_bits
    && all_agree a.attributes b.attributes

unfoldable pub equals : Item → Item → Bool
unfolding same_bits all_agree
equals a b = if not (a.id == b.id) then false else equal_attributes a.attributes b.attributes
