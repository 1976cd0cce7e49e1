-- ===== src/Otb.antt =====
-- compiler/src/fileloader.cpp and fileloader.h: the tree of nodes of an OTB file, the escapes in the
-- properties of a node, and the stream in which they are read. Iterators are the bytes that they
-- stand before: a node's properties are the bytes between propsBegin and propsEnd, collected as the
-- loop goes over them. The one exception of the loader, InvalidOTBFormat, is `none`.
pub mod Props
pub mod RoundTrip
mod Tests
use tibia_server.Base.{
  ℕ, ◌+◌, ◌-◌, ◌<◌, Bool, true, false, not, ◌&&◌, ◌||◌, List, [], ◌∷◌, ◌++◌, Option, none, some,
  ltb, leb, ◌==◌, if◌then◌else◌, length, take, drop, arith,
}
use tibia_server.Network.Buffer.{le_value, le_bytes}

-- Node::NodeChar
abbrev pub escape_char : ℕ
escape_char = 0xfd

abbrev pub start_char : ℕ
start_char = 0xfe

abbrev pub end_char : ℕ
end_char = 0xff

-- A node: its type, the bytes of its properties as they stand in the file, and its children.
mutual
  pub data Node : Type 0 where
    node : ℕ → List ℕ → Nodes → Node

  pub data Nodes : Type 0 where
    nil : Nodes
    cons : Node → Nodes → Nodes

abbrev pub append_node : Nodes → Node → Nodes
append_node nil n = cons n nil
append_node (cons m ms) n = cons m (append_node ms n)

-- A node on the stack of parseTree. Its children are all closed while it is on top.
pub record Frame : Type 0 where
  pub type : ℕ
  pub props : List ℕ
  pub children : Nodes

abbrev pub close : Frame → Node
close f = node f.type f.props f.children

abbrev pub attach : Node → Frame → Frame
attach n f = record f { children = append_node f.children n }

abbrev pub open_node : ℕ → Frame
open_node type = record { type = type; props = []; children = nil }

-- Bytes between propsBegin and propsEnd; the latter is set before the first child.
abbrev pub add_props : List ℕ → Frame → Frame
add_props bs f = record f { props = props_with f.children }
  where
    props_with : Nodes → List ℕ
    props_with nil = f.props ++ bs
    props_with (cons m ms) = f.props

-- The stack, its top first, and the root once its end was read.
pub record Loading : Type 0 where
  pub stack : List Frame
  pub root : Option Node

-- Bytes of no meaning are read; behind the end of the root they belong to no node.
abbrev pub pass_bytes : List ℕ → Loading → Loading
pass_bytes bs l = record l { stack = with_top l.stack }
  where
    with_top : List Frame → List Frame
    with_top [] = []
    with_top (f ∷ fs) = add_props bs f ∷ fs

-- getCurrentNode, and the new child on the stack.
abbrev pub push_node : ℕ → List Frame → Option Node → Option Loading
push_node type [] root = none
push_node type (f ∷ fs) root = some (record { stack = open_node type ∷ f ∷ fs; root = root })

abbrev pub pop_node : List Frame → Option Node → Option Loading
pop_node [] root = none
pop_node (f ∷ []) root = some (record { stack = []; root = some (close f) })
pop_node (f ∷ g ∷ fs) root = some (record { stack = attach (close f) g ∷ fs; root = root })

abbrev pub then_run : Option Loading → (Loading → Option Node) → Option Node
then_run none next = none
then_run (some l) next = next l

-- Behind the loop: the root, if no node is open.
abbrev pub finish : Loading → Option Node
finish l = root_if l.stack
  where
    root_if : List Frame → Option Node
    root_if [] = l.root
    root_if (f ∷ fs) = none

-- The loop of parseTree. The type of a child and the byte behind an escape are read at once.
unfoldable pub run : List ℕ → Loading → Option Node
run [] l = finish l
run (b ∷ []) l =
    if b == start_char
    then none
    else if b == end_char
    then then_run (pop_node l.stack l.root) finish
    else if b == escape_char
    then none
    else finish (pass_bytes (b ∷ []) l)
run (b ∷ c ∷ rest) l =
    let opened = then_run (push_node c l.stack l.root) (run rest) in
    let ended = then_run (pop_node l.stack l.root) (run (c ∷ rest)) in
    let escaped = run rest (pass_bytes (b ∷ c ∷ []) l) in
    let plain = run (c ∷ rest) (pass_bytes (b ∷ []) l) in
    if b == start_char
    then opened
    else if b == end_char
    then ended
    else if b == escape_char
    then escaped
    else plain

-- parseTree behind the identifier; `it` has left the bytes that `minimalSize` grants.
unfoldable pub parse_tree : List ℕ → Option Node
unfolding run
parse_tree (s ∷ type ∷ rest) =
    if not (s == start_char)
    then none
    else run rest (record { stack = open_node type ∷ []; root = none })
parse_tree _ = none

unfoldable pub bytes_eq : List ℕ → List ℕ → Bool
bytes_eq [] [] = true
bytes_eq (x ∷ xs) (y ∷ ys) = x == y && bytes_eq xs ys
bytes_eq _ _ = false

abbrev pub wildcard : List ℕ
wildcard = 0 ∷ 0 ∷ 0 ∷ 0 ∷ []

abbrev pub minimal_size : ℕ
minimal_size = 7

-- The Loader's constructor: `none` where it throws, or else the bytes behind the identifier.
unfoldable pub open_loader : List ℕ → List ℕ → Option (List ℕ)
unfolding bytes_eq
open_loader accepted contents =
    if leb (length contents) minimal_size
    then none
    else if not (bytes_eq (take 4 contents) accepted) && not (bytes_eq (take 4 contents) wildcard)
    then none
    else some (drop 4 contents)

-- The constructor and parseTree, as the readers of items and of maps call them.
unfoldable pub load : List ℕ → List ℕ → Option Node
unfolding open_loader parse_tree
load accepted contents = elim (open_loader accepted contents) [
  | none ↦ none
  | some bs ↦ parse_tree bs
]

-- The copy of getProps, with `lastEscaped` before each byte.
unfoldable pub unescape : Bool → List ℕ → List ℕ
unescape last [] = []
unescape last (b ∷ bs) =
    let now = b == escape_char && not last in
    let rest = unescape now bs in if now then rest else b ∷ rest

-- getProps: `none` where a node has none.
unfoldable pub get_props : List ℕ → Option (List ℕ)
unfolding unescape
get_props [] = none
get_props (b ∷ bs) = some (unescape false (b ∷ bs))

-- PropStream, as the bytes that it has left: read<T> at sizeof(T) == n, readString and skip.
unfoldable pub read : ℕ → List ℕ → Option (ℕ × List ℕ)
read n p = if ltb (length p) n then none else some (le_value (take n p), drop n p)

unfoldable pub read_string : List ℕ → Option (List ℕ × List ℕ)
unfolding read
read_string p = elim (read 2 p) [
  | none ↦ none
  | some (n, q) ↦ if ltb (length q) n then none else some (take n q, drop n q)
]

unfoldable pub skip : ℕ → List ℕ → Option (List ℕ)
skip n p = if ltb (length p) n then none else some (drop n p)

-- PropWriteStream, as the bytes written so far: write<T> at sizeof(T) == n, and writeString.
unfoldable pub write : ℕ → ℕ → List ℕ → List ℕ
write n v buffer = buffer ++ le_bytes n v

unfoldable pub write_string : List ℕ → List ℕ → List ℕ
unfolding write
write_string str buffer =
    if ltb 65535 (length str) then write 2 0 buffer else write 2 (length str) buffer ++ str
