-- ===== src/Otb/RoundTrip.antt =====
-- parseTree reads back a tree that is laid out with escaped properties.
use tibia_server.Base.{
  ℕ, ◌<◌, true, false, List, [], ◌∷◌, ◌++◌, Option, none, some, ◌≡◌, refl, ◌∙◌, ap, length,
  length-append, take_append_left, drop_append_left, ap₂, arith, Bool-cases, inl, inr, leb,
}
use mathlib.Core.List.{append-nil, append_assoc}
use tibia_server.Otb.{
  Node, Nodes, node, nil, cons, Frame, Loading, run, append_node, attach, close, pass_bytes,
  start_char, end_char, escape_char, parse_tree, load, open_loader, bytes_eq, unescape,
  minimal_size,
}
use tibia_server.Otb.Props.{escape, unescape-escape}

-- A tree as a file holds it, in front of other bytes: each node between its marks, its properties
-- escaped.
unfoldable mutual
  pub print : Node → List ℕ → List ℕ
  print (node t ps ks) rest = start_char ∷ t ∷ (escape ps ++ print_all ks (end_char ∷ rest))

  pub print_all : Nodes → List ℕ → List ℕ
  print_all nil rest = rest
  print_all (cons n ns) rest = print n (print_all ns rest)

-- The tree that the loader gives: its properties are still escaped.
mutual
  pub escaped : Node → Node
  escaped (node t ps ks) = node t (escape ps) (escaped_all ks)

  pub escaped_all : Nodes → Nodes
  escaped_all nil = nil
  escaped_all (cons n ns) = cons (escaped n) (escaped_all ns)

run_plain :
    (b : ℕ) (bs : List ℕ) (l : Loading)
    → leb escape_char b ≡ false
    → run (b ∷ bs) l ≡ run bs (pass_bytes (b ∷ []) l)
unfolding run
run_plain b [] l h = ground (arith, h)
run_plain b (c ∷ bs) l h = ground (arith, h)

run_end :
    (bs : List ℕ) (f g : Frame) (fs : List Frame) (root : Option Node)
    → run (end_char ∷ bs) (record { stack = f ∷ g ∷ fs; root = root })
      ≡ run bs (record { stack = attach (close f) g ∷ fs; root = root })
unfolding run
run_end [] f g fs root = refl
run_end (c ∷ bs) f g fs root = refl

abbrev loading : ℕ → List ℕ → Nodes → List Frame → Option Node → Loading
loading t raw ks fs root = record {
  stack = record { type = t; props = raw; children = ks } ∷ fs;
  root = root;
}

run-escape :
    (ps rest raw : List ℕ) (t : ℕ) (fs : List Frame) (root : Option Node)
    → run (escape ps ++ rest) (loading t raw nil fs root)
      ≡ run rest (loading t (raw ++ escape ps) nil fs root)
unfolding run escape
run-escape [] rest raw t fs root = rw append-nil refl
run-escape (p ∷ ps) rest raw t fs root = elim (Bool-cases (leb escape_char p)) [
  | inl mark ↦ rw mark (
      run-escape ps rest (raw ++ escape_char ∷ p ∷ []) t fs root
      ∙ ap (λ r. run rest (loading t r nil fs root))
          (append_assoc raw (escape_char ∷ p ∷ []) (escape ps)))
  | inr plain ↦ rw plain (
      run_plain p (escape ps ++ rest) (loading t raw nil fs root) plain
      ∙ run-escape ps rest (raw ++ p ∷ []) t fs root
      ∙ ap (λ r. run rest (loading t r nil fs root)) (append_assoc raw (p ∷ []) (escape ps)))
]

abbrev append_nodes : Nodes → Nodes → Nodes
append_nodes nil ks = ks
append_nodes (cons n ns) ks = cons n (append_nodes ns ks)

append_nodes-nil : (ks : Nodes) → append_nodes ks nil ≡ ks
append_nodes-nil nil = refl
append_nodes-nil (cons n ns) = ap (cons n) (append_nodes-nil ns)

append_nodes-cons :
    (ks : Nodes) (n : Node) (ns : Nodes)
    → append_nodes (append_node ks n) ns ≡ append_nodes ks (cons n ns)
append_nodes-cons nil n ns = refl
append_nodes-cons (cons k ks) n ns = ap (cons k) (append_nodes-cons ks n ns)

mutual
  unfolding run print escaped

  run-print :
      (n : Node) (rest raw : List ℕ) (t : ℕ) (ks : Nodes) (fs : List Frame) (root : Option Node)
      → run (print n rest) (loading t raw ks fs root)
        ≡ run rest (loading t raw (append_node ks (escaped n)) fs root)
  run-print (node u ps ns) rest raw t ks fs root =
      let f : Frame = record { type = t; props = raw; children = ks } in
      run-escape ps (print_all ns (end_char ∷ rest)) [] u (f ∷ fs) root
      ∙ run-print_all ns (end_char ∷ rest) (escape ps) u nil (f ∷ fs) root
      ∙ run_end rest (record { type = u; props = escape ps; children = escaped_all ns }) f fs root

  run-print_all :
      (ns : Nodes) (rest raw : List ℕ) (t : ℕ) (ks : Nodes) (fs : List Frame) (root : Option Node)
      → run (print_all ns rest) (loading t raw ks fs root)
        ≡ run rest (loading t raw (append_nodes ks (escaped_all ns)) fs root)
  run-print_all nil rest raw t ks fs root = rw (append_nodes-nil ks) refl
  run-print_all (cons n ns) rest raw t ks fs root =
      run-print n (print_all ns rest) raw t ks fs root
      ∙ run-print_all ns rest raw t (append_node ks (escaped n)) fs root
      ∙ ap (λ k. run rest (loading t raw k fs root))
          (append_nodes-cons ks (escaped n) (escaped_all ns))

-- The bytes of any tree, whatever its types and properties, parse to that tree, whose properties are
-- still escaped.
pub parse_tree-print : (n : Node) → parse_tree (print n []) ≡ some (escaped n)
unfolding parse_tree run print escaped
parse_tree-print (node t ps ks) =
    run-escape ps (print_all ks (end_char ∷ [])) [] t [] none
    ∙ run-print_all ks (end_char ∷ []) (escape ps) t nil [] none

-- The properties as getProps gives them, throughout a tree.
mutual
  pub decoded : Node → Node
  decoded (node t ps ks) = node t (unescape false ps) (decoded_all ks)

  pub decoded_all : Nodes → Nodes
  decoded_all nil = nil
  decoded_all (cons n ns) = cons (decoded n) (decoded_all ns)

mutual
  unfolding decoded escaped

  decoded-escaped : (n : Node) → decoded (escaped n) ≡ n
  decoded-escaped (node t ps ks) = ap₂ (node t) (unescape-escape ps) (decoded_all-escaped_all ks)

  decoded_all-escaped_all : (ns : Nodes) → decoded_all (escaped_all ns) ≡ ns
  decoded_all-escaped_all nil = refl
  decoded_all-escaped_all (cons n ns) = ap₂ cons (decoded-escaped n) (decoded_all-escaped_all ns)

abbrev pub decoded_result : Option Node → Option Node
decoded_result none = none
decoded_result (some n) = some (decoded n)

bytes_eq_self : (xs : List ℕ) → bytes_eq xs xs ≡ true
unfolding bytes_eq
bytes_eq_self [] = refl
bytes_eq_self (x ∷ xs) = ground (arith, bytes_eq_self xs)

open_loader_lem :
    (accepted body : List ℕ)
    → length accepted ≡ 4
    → 3 < length body
    → open_loader accepted (accepted ++ body) ≡ some body
unfolding open_loader
open_loader_lem accepted body four big =
    let long : leb (length (accepted ++ body)) minimal_size ≡ false =
      ground (arith, length-append {0} accepted body) in
    rw
      (
        open_loader,
        long,
        take_append_left 4 accepted body four,
        drop_append_left 4 accepted body four,
        bytes_eq_self accepted,
      )
      refl

-- A file of an accepted identifier and a tree loads: what getProps then gives for the nodes is the
-- tree that was laid out, if the root is not
-- without both properties and children.
pub load-print :
    (accepted : List ℕ) (n : Node)
    → length accepted ≡ 4
    → 3 < length (print n [])
    → decoded_result (load accepted (accepted ++ print n [])) ≡ some n
unfolding load
load-print accepted n four big =
    rw (load, open_loader_lem accepted (print n []) four big, parse_tree-print n)
      (ap some (decoded-escaped n))

-- The least file, of an accepted identifier and a root with nothing in it, is refused.
pub load_minimal :
    (accepted : List ℕ) (t : ℕ)
    → length accepted ≡ 4
    → load accepted (accepted ++ print (node t [] nil) []) ≡ none
unfolding load open_loader print escape
load_minimal accepted t four =
    let short : leb (length (accepted ++ print (node t [] nil) [])) minimal_size ≡ true =
      ground (arith, length-append {0} accepted (print (node t [] nil) [])) in
    rw (load, open_loader, short) refl
