-- ===== src/Pathing/Potential.antt =====
-- A number that falls with each round of the search: twice the costs of the nodes, one for each
-- open node, and enough for each node that is not in use yet.
use tibia_server.Base.{
  ℕ, zero, suc, ◌+◌, ◌-◌, ◌*◌, ◌≤◌, ◌<◌, Bool, true, false, some, ◌≡◌, ◌≢◌, refl, ap, arith, inl,
  inr, Bool-cases, if◌then◌else◌, ℕ_discrete,
}
use tibia_server.Base.Update.{put, put_other, put_same}
use tibia_server.Pathing.{AStarNode, AStarNodes, added, close_node, open_node}
use tibia_server.Pathing.Search.{redirected}

abbrev pub total : ℕ → (ℕ → ℕ) → ℕ
total zero g = 0
total (suc n) g = total n g + g n

total_ext : (n : ℕ) (g h : ℕ → ℕ) → ((i : ℕ) → i < n → g i ≡ h i) → total n g ≡ total n h
total_ext zero g h e = refl
total_ext (suc n) g h e =
    omega (arith, total_ext n g h (λ i l. e i (omega arith)), e n (omega arith))

total_change :
    (n m : ℕ) (g h : ℕ → ℕ)
    → m < n
    → ((i : ℕ) → i ≢ m → g i ≡ h i)
    → total n g + h m ≡ total n h + g m
total_change zero m g h l e = absurd (omega arith)
total_change (suc n) m g h l e = elim (ℕ_discrete n m) [
  | yes same ↦
      let others = total_ext n g h (λ i k. e i (λ c. omega (arith, c, same))) in
      omega (arith, others, ap g same, ap h same)
  | no other ↦ omega (arith, total_change n m g h (omega (arith, other)) e, e n other)
]

abbrev pub unused : ℕ
unused = 240200

abbrev pub weight_of : AStarNode → Bool → ℕ
weight_of m is_open = 2 * m.f + (if is_open then 1 else 0)

abbrev pub weight : AStarNodes → ℕ → ℕ
weight s i = weight_of (s.nodes i) (s.open_nodes i)

unfoldable pub potential : AStarNodes → ℕ
potential s = total s.cur_node (weight s) + (512 - s.cur_node) * unused

weight_le : (m : AStarNode) (b : Bool) → weight_of m b ≤ 2 * m.f + 1
weight_le m true = omega arith
weight_le m false = omega arith

pub close_node-potential :
    (s : AStarNodes) (n : ℕ)
    → n < s.cur_node
    → s.open_nodes n ≡ true
    → potential (close_node n s) + 1 ≡ potential s
unfolding potential close_node
close_node-potential s n l o =
    let at_n = put_same s.open_nodes n n false refl in
    let changed =
      total_change s.cur_node n (weight (close_node n s)) (weight s) l
        (λ i e. rw (put_other s.open_nodes n i false e) refl) in
    omega (arith, (rw (at_n, o) at changed))

improved_weight :
    (s s' : AStarNodes) (m f : ℕ)
    → s'.cur_node ≡ s.cur_node
    → m < s.cur_node
    → ((i : ℕ) → i ≢ m → weight s' i ≡ weight s i)
    → weight s' m ≤ 2 * f + 1
    → f < (s.nodes m).f
    → potential s' ≤ potential s
unfolding potential
improved_weight s s' m f e l same small less =
    let changed = total_change s.cur_node m (weight s') (weight s) l same in
    rw e omega (arith, changed, small, less)

pub improve-potential :
    (s : AStarNodes) (n m f : ℕ)
    → m < s.cur_node
    → f < (s.nodes m).f
    → potential (open_node m (redirected n m f s)) ≤ potential s
unfolding open_node
improve-potential s n m f l less = elim (Bool-cases (s.open_nodes m)) [
  | inl o ↦ rw o (improved_weight s (redirected n m f s) m f refl l apart small less)
  | inr c ↦ rw c (improved_weight s opened m f refl l apart_opened small_opened less)
]
  where
    moved : AStarNode
    moved = record (s.nodes m) { parent = some n; f = f }

    apart : (i : ℕ) → i ≢ m → weight (redirected n m f s) i ≡ weight s i
    apart i e = rw (put_other s.nodes m i moved e) refl

    small : weight (redirected n m f s) m ≤ 2 * f + 1
    small = rw (put_same s.nodes m m moved refl) (weight_le moved (s.open_nodes m))

    opened : AStarNodes
    opened = record (redirected n m f s) {
      open_nodes = put s.open_nodes m true;
      closed_nodes = s.closed_nodes - 1;
    }

    apart_opened : (i : ℕ) → i ≢ m → weight opened i ≡ weight s i
    apart_opened i e = rw (put_other s.nodes m i moved e, put_other s.open_nodes m i true e) refl

    small_opened : weight opened m ≤ 2 * f + 1
    small_opened =
        rw (put_same s.nodes m m moved refl) (weight_le moved (put s.open_nodes m true m))

pub added-potential :
    (s : AStarNodes) (n x y f : ℕ)
    → s.cur_node < 512
    → f ≤ 120085
    → potential (added n x y f s) ≤ potential s
unfolding potential
added-potential s n x y f room cheap =
    let old = total_ext s.cur_node (weight (added n x y f s)) (weight s) same in
    omega (arith, old, small)
  where
    child : AStarNode
    child = record { parent = some n; f = f; x = x; y = y }

    same : (i : ℕ) → i < s.cur_node → weight (added n x y f s) i ≡ weight s i
    same i h =
        let apart : i ≢ s.cur_node = λ e. omega (arith, e) in
        rw
          (
            put_other s.nodes s.cur_node i child apart,
            put_other s.open_nodes s.cur_node i true apart,
          )
          refl

    small : weight (added n x y f s) s.cur_node ≤ 2 * f + 1
    small =
        rw (put_same s.nodes s.cur_node s.cur_node child refl)
          (weight_le child (put s.open_nodes s.cur_node true s.cur_node))
