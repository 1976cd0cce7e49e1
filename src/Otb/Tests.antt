-- ===== src/Otb/Tests.antt =====
-- A file of two nodes, whose properties hold each mark, and the theorems about it.
use tibia_server.Base.{ℕ, List, [], ◌∷◌, ◌++◌, some, none, ◌≡◌, refl, arith}
use tibia_server.Otb.{Node, node, nil, cons, load, read_string, write_string, parse_tree, run}
use tibia_server.Otb.Props.{escape, read_string-write_string}
use tibia_server.Otb.RoundTrip.{print, decoded_result, load-print, load_minimal}

abbrev identifier : List ℕ
identifier = b'O' ∷ b'T' ∷ b'B' ∷ b'M' ∷ []

abbrev town : Node
town = node 0 (1 ∷ 253 ∷ 254 ∷ 255 ∷ []) (cons (node 254 (9 ∷ []) nil) nil)

print-town :
    print town [] ≡ 254 ∷ 0 ∷ 1 ∷ 253 ∷ 253 ∷ 253 ∷ 254 ∷ 253 ∷ 255 ∷ 254 ∷ 254 ∷ 9 ∷ 255 ∷ 255 ∷ []
unfolding print escape
print-town = refl

-- Bytes between two children belong to no node.
parse_tree_garbage :
    parse_tree (254 ∷ 0 ∷ 254 ∷ 1 ∷ 255 ∷ 7 ∷ 255 ∷ 8 ∷ [])
    ≡ some (node 0 [] (cons (node 1 [] nil) nil))
unfolding parse_tree run
parse_tree_garbage = refl

parse_tree_open : parse_tree (254 ∷ 0 ∷ 254 ∷ 1 ∷ 255 ∷ []) ≡ none
unfolding parse_tree run
parse_tree_open = refl

load-print_example : decoded_result (load identifier (identifier ++ print town [])) ≡ some town
unfolding print escape
load-print_example = load-print identifier town refl (omega arith)

minimal_file : load identifier (identifier ++ print (node 0 [] nil) []) ≡ none
minimal_file = load_minimal identifier 0 refl

short_string :
    read_string (write_string (72 ∷ 105 ∷ []) [] ++ 5 ∷ []) ≡ some (72 ∷ 105 ∷ [], 5 ∷ [])
short_string = read_string-write_string (72 ∷ 105 ∷ []) (5 ∷ []) (omega arith)
