-- ===== src/Pathing/Best.antt =====
-- getBestNode chooses an open node of the least cost.
use tibia_server.Base.{
  ℕ, zero, suc, ◌+◌, ◌≤◌, ◌<◌, Bool, true, false, ◌&&◌, Option, none, some, ◌≡◌, refl, sym, ◌∙◌,
  arith, inl, inr, Bool-cases, ltb, if◌then◌else◌, ℕ_discrete, clash, subst, ltb→lt,
}
use tibia_server.Pathing.{AStarNodes, scan_best, get_best_node}

-- What the best node among the first n is, and its cost.
abbrev IsBestOf : AStarNodes → ℕ → ℕ → Option ℕ → Type 0
IsBestOf s n f none = (f ≡ 2147483647) × ((i : ℕ) → i < n → s.open_nodes i ≡ false)
IsBestOf s n f (some k) =
    (s.open_nodes k ≡ true)
    × (k < n)
    × (f ≡ (s.nodes k).f)
    × ((i : ℕ) → i < n → s.open_nodes i ≡ true → (s.nodes k).f ≤ (s.nodes i).f)

each_below {ℓ} :
    (Q : ℕ → Type ℓ) (n : ℕ) → ((i : ℕ) → i < n → Q i) → Q n → (i : ℕ) → i < suc n → Q i
each_below Q n old new i h = elim (ℕ_discrete n i) [
  | yes e ↦ subst Q e new
  | no e ↦ old i (omega (arith, e))
]

and_true : (a b : Bool) → (a && b) ≡ true → (a ≡ true) × (b ≡ true)
and_true true b e = (refl, e)
and_true false b e = absurd (clash e)

unfoldable pub IsBest : AStarNodes → Option ℕ → Type 0
IsBest s none = (i : ℕ) → i < s.cur_node → s.open_nodes i ≡ false
IsBest s (some k) =
    (k < s.cur_node)
    × (s.open_nodes k ≡ true)
    × ((i : ℕ) → i < s.cur_node → s.open_nodes i ≡ true → (s.nodes k).f ≤ (s.nodes i).f)

module _ (s : AStarNodes) (cheap : (i : ℕ) → i < s.cur_node → (s.nodes i).f < 2147483647) where
  skips :
      (n f : ℕ) (best : Option ℕ)
      → n < s.cur_node
      → (s.open_nodes n && ltb (s.nodes n).f f) ≡ false
      → IsBestOf s n f best
      → IsBestOf s (suc n) f best
  skips n f none l c (e, h) = elim (Bool-cases (s.open_nodes n)) [
    | inl o ↦ absurd (clash (sym c ∙ is_better o))
    | inr o ↦ (e, each_below (λ i. s.open_nodes i ≡ false) n h o)
  ]
    where
      is_better : s.open_nodes n ≡ true → (s.open_nodes n && ltb (s.nodes n).f f) ≡ true
      is_better o = rw o (ground (arith, cheap n l))
  skips n f (some k) l c (o, m, e, h) = (
    o,
    omega (arith, m),
    e,
    each_below (λ i. s.open_nodes i ≡ true → (s.nodes k).f ≤ (s.nodes i).f) n h
        (λ p. ground (arith, rw p at c)),
  )

  takes :
      (n f : ℕ) (best : Option ℕ)
      → (s.open_nodes n && ltb (s.nodes n).f f) ≡ true
      → IsBestOf s n f best
      → IsBestOf s (suc n) (s.nodes n).f (some n)
  takes n f none c h = (
    (and_true _ _ c).0,
    omega arith,
    refl,
    each_below (λ i. s.open_nodes i ≡ true → (s.nodes n).f ≤ (s.nodes i).f) n
        (λ i l o. absurd (clash (sym (h.1 i l) ∙ o))) (λ o. omega arith),
  )
  takes n f (some k) c (o, m, e, h) = (
    (and_true _ _ c).0,
    omega arith,
    refl,
    each_below (λ i. s.open_nodes i ≡ true → (s.nodes n).f ≤ (s.nodes i).f) n
        (λ i l p. omega (arith, h i l p, e, ltb→lt _ _ (and_true (s.open_nodes n) _ c).1))
        (λ o. omega arith),
  )

  scan_best-IsBestOf :
      (m n f : ℕ) (best : Option ℕ)
      → n + m ≡ s.cur_node
      → IsBestOf s n f best
      → (g : ℕ) × IsBestOf s s.cur_node g (scan_best m n f best s)
  unfolding scan_best
  scan_best-IsBestOf zero n f best e h = (f, subst (λ k. IsBestOf s k f best) (omega (arith, e)) h)
  scan_best-IsBestOf (suc m) n f best e h =
      scan_best-IsBestOf m (suc n) _ _ (omega (arith, e))
        (next (s.open_nodes n && ltb (s.nodes n).f f) refl)
    where
      next :
          (b : Bool)
          → (s.open_nodes n && ltb (s.nodes n).f f) ≡ b
          → IsBestOf s (suc n) (if b then (s.nodes n).f else f) (if b then some n else best)
      next true c = takes n f best c h
      next false c = skips n f best (omega (arith, e)) c h

  -- Where no node costs as much as the greatest int32_t, getBestNode finds an open node such that
  -- no open node is cheaper, and it finds none only where none is open.
  pub get_best_node-IsBest : IsBest s (get_best_node s)
  unfolding get_best_node IsBest
  get_best_node-IsBest = is_best (get_best_node s) (
      scan_best-IsBestOf s.cur_node 0 2147483647 none (omega arith)
        (refl, λ i h. absurd (omega arith)))
    where
      is_best : (o : Option ℕ) → (g : ℕ) × IsBestOf s s.cur_node g o → IsBest s o
      is_best none (g, h) = h.1
      is_best (some k) (g, (o, m, e, h)) = (m, o, h)
