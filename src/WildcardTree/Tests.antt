-- ===== src/WildcardTree/Tests.antt =====
-- The tree at the names "ana", "and" and "bo".
use tibia_server.Base.{◌≡◌, refl, [], ◌∷◌, false, not, ◌&&◌, ◌||◌}
use tibia_server.WildcardTree.{
  Node, node, nil, insert, remove, find_one, get_child, put_child, add_child, descend,
  descend_children, walk, no_error, too_ambiguous,
}
use tibia_server.WildcardTree.Words.{contains, word_eq, contains-insert-remove}
use tibia_server.WildcardTree.Live.{
  IsLive, live, no_children, insert-IsLive, remove-IsLive, insert_alive,
}
use tibia_server.WildcardTree.FindOne.{IsAnswer, find_one-IsAnswer}

abbrev root : Node
root = node false nil

abbrev online : Node
online = insert 98 (111 ∷ []) (insert 97 (110 ∷ 100 ∷ []) (insert 97 (110 ∷ 97 ∷ []) root))

online-IsLive : IsLive online
online-IsLive =
    insert-IsLive 98 (111 ∷ [])
      (insert-IsLive 97 (110 ∷ 100 ∷ []) (insert-IsLive 97 (110 ∷ 97 ∷ []) (live no_children)))

find_one_test : find_one (98 ∷ []) online ≡ no_error (98 ∷ 111 ∷ [])
unfolding find_one walk descend descend_children insert get_child put_child add_child
find_one_test = refl

ambiguous_test : find_one (97 ∷ []) online ≡ too_ambiguous
unfolding find_one walk descend descend_children insert get_child put_child add_child
ambiguous_test = refl

find_one-IsAnswer_example : IsAnswer (98 ∷ []) online (find_one (98 ∷ []) online)
find_one-IsAnswer_example =
    find_one-IsAnswer (98 ∷ []) online online-IsLive (insert_alive 98 (111 ∷ []) _)

contains-insert-remove_example :
    (contains (98 ∷ []) (insert 98 [] online)
      ≡ (word_eq (98 ∷ []) (98 ∷ []) || contains (98 ∷ []) online))
    × (contains (98 ∷ []) (remove (97 ∷ 110 ∷ 97 ∷ []) online)
        ≡ (not (word_eq (98 ∷ []) (97 ∷ 110 ∷ 97 ∷ [])) && contains (98 ∷ []) online))
contains-insert-remove_example = contains-insert-remove 98 [] (97 ∷ 110 ∷ 97 ∷ []) (98 ∷ []) online

removed-IsLive : IsLive (remove (97 ∷ 110 ∷ 97 ∷ []) online)
removed-IsLive = remove-IsLive (97 ∷ 110 ∷ 97 ∷ []) online online-IsLive
