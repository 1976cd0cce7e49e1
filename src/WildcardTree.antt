-- ===== src/WildcardTree.antt =====
-- compiler/src/wildcardtree.cpp: the tree of the names of the players online, by which a name that
-- ends in a wildcard is completed. `std::map<char, WildcardTreeNode>` is an association list, whose
-- order the code never uses: children.begin() is read only where there is one child. insert takes
-- the first character apart, since the code reads out of bounds on an empty name.
pub mod Words
pub mod Live
pub mod FindOne
mod Tests
use tibia_server.Base.{
  ℕ, ◌==◌, Bool, true, false, ◌||◌, if◌then◌else◌, Option, none, some, List, [], ◌∷◌, ◌++◌,
}

mutual
  pub data Node : Type 0 where
    node : Bool → Children → Node

  pub data Children : Type 0 where
    nil : Children
    child : ℕ → Node → Children → Children

unfoldable pub get_child : ℕ → Children → Option Node
get_child ch nil = none
get_child ch (child c n ks) = if c == ch then some n else get_child ch ks

-- The entry of a character, written over the old one or put behind the others.
unfoldable pub put_child : ℕ → Node → Children → Children
put_child ch m nil = child ch m nil
put_child ch m (child c n ks) = if c == ch then child c m ks else child c n (put_child ch m ks)

-- children.erase(it)
unfoldable pub erase_child : ℕ → Children → Children
erase_child ch nil = nil
erase_child ch (child c n ks) = if c == ch then erase_child ch ks else child c n (erase_child ch ks)

abbrev pub mark : Bool → Node → Node
mark breakpoint (node b ks) = node (breakpoint || b) ks

abbrev pub child_or_new : Bool → Option Node → Node
child_or_new breakpoint none = node breakpoint nil
child_or_new breakpoint (some n) = mark breakpoint n

-- The child that addChild returns; `put_child` stores what becomes of it.
unfoldable pub add_child : ℕ → Bool → Children → Node
add_child ch breakpoint ks = child_or_new breakpoint (get_child ch ks)

unfoldable pub insert : ℕ → List ℕ → Node → Node
insert ch [] (node b ks) = node b (put_child ch (add_child ch true ks) ks)
insert ch (c ∷ rest) (node b ks) = node b (put_child ch (insert c rest (add_child ch false ks)) ks)

-- No children, and no breakpoint.
abbrev pub is_dead : Node → Bool
is_dead (node true ks) = false
is_dead (node false nil) = true
is_dead (node false (child c n ks)) = false

-- What the loop at the end of remove does at the parent of a node.
abbrev pub prune : ℕ → Node → Children → Children
prune ch n ks = if is_dead n then erase_child ch ks else put_child ch n ks

-- `none` where the walk along the name fails.
unfoldable pub remove_path : List ℕ → Node → Option Node
remove_path [] (node b ks) = some (node false ks)
remove_path (ch ∷ rest) (node b ks) = elim (get_child ch ks) [
  | none ↦ none
  | some n ↦ elim (remove_path rest n) [ none ↦ none | some n' ↦ some (node b (prune ch n' ks)) ]
]

unfoldable pub remove : List ℕ → Node → Node
remove str t = elim (remove_path str t) [ none ↦ t | some t' ↦ t' ]

pub data ReturnValue : Type 0 where
  no_error : List ℕ → ReturnValue
  not_online too_ambiguous : ReturnValue

-- The first loop of findOne.
unfoldable pub walk : List ℕ → Node → Option Node
walk [] n = some n
walk (ch ∷ rest) (node b ks) = elim (get_child ch ks) [ none ↦ none | some n ↦ walk rest n ]

-- The second loop, with the result so far.
unfoldable mutual
  pub descend : Node → List ℕ → ReturnValue
  descend (node b ks) result = descend_children ks b result

  pub descend_children : Children → Bool → List ℕ → ReturnValue
  descend_children nil b result = no_error result
  descend_children (child c n nil) true result = too_ambiguous
  descend_children (child c n nil) false result = descend n (result ++ c ∷ [])
  descend_children (child c n (child c' n' ks)) b result = too_ambiguous

unfoldable pub find_one : List ℕ → Node → ReturnValue
find_one query t = elim (walk query t) [ none ↦ not_online | some n ↦ descend n query ]
