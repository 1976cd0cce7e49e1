-- ===== src/Area/Loops.antt =====
-- Counted loops, and nests of two that write to cells.
use tibia_server.Base.{
  ℕ, zero, suc, ◌+◌, ◌<◌, ◌≤◌, Bool, ◌&&◌, ◌==◌, ◌≡◌, ◌≢◌, inl, inr, refl, arith, Bool-cases, subst,
  sym, ◌∙◌, ℕ_discrete,
}
use tibia_server.Area.{Cells, loop, set_cell}

lt_of_ne : (a b : ℕ) → a ≤ b → a ≢ b → a < b
lt_of_ne a b h ne = grind (arith, ne)

module _ {ℓ κ} {A : Type ℓ} (Q : A → Type κ) (body : ℕ → A → A) where
  -- What each round keeps, the loop keeps.
  pub loop_inv :
      (n first : ℕ) (a : A)
      → ((i : ℕ) (b : A) → first ≤ i → i < first + n → Q b → Q (body i b))
      → Q a
      → Q (loop n first body a)
  unfolding loop
  loop_inv zero first a keep q = q
  loop_inv (suc n) first a keep q =
      loop_inv n (suc first) (body first a) (λ i b lo hi h. keep i b (omega arith) (omega arith) h)
        (keep first a (omega arith) (omega arith) q)

  -- What one round brings about and the others keep, holds at the end.
  pub loop_hit :
      (n first : ℕ) (a : A) (j : ℕ)
      → first ≤ j
      → j < first + n
      → ((b : A) → Q (body j b))
      → ((i : ℕ) (b : A) → first ≤ i → i < first + n → i ≢ j → Q b → Q (body i b))
      → Q (loop n first body a)
  unfolding loop
  loop_hit zero first a j lo hi hit keep = absurd (omega arith)
  loop_hit (suc n) first a j lo hi hit keep = elim (ℕ_discrete first j) [
    | yes here ↦
        loop_inv n (suc first) (body first a)
          (λ i b lo' hi' h. keep i b (omega arith) (omega arith) (λ e. omega arith) h)
          (subst (λ k. Q (body k a)) (sym here) (hit a))
    | no later ↦
        loop_hit n (suc first) (body first a) j (omega (arith, lt_of_ne first j lo later))
          (omega arith) hit (λ i b lo' hi' ne h. keep i b (omega arith) (omega arith) ne h)
  ]

-- A property of the index and the state that each round hands on.
pub loop_ind {ℓ κ} :
    {A : Type ℓ} (Q : ℕ → A → Type κ) (body : ℕ → A → A) (n first : ℕ) (a : A)
    → ((i : ℕ) (b : A) → i < first + n → Q i b → Q (suc i) (body i b))
    → Q first a
    → Q (first + n) (loop n first body a)
unfolding loop
loop_ind Q body zero first a step q = subst (λ k. Q k a) (omega arith) q
loop_ind Q body (suc n) first a step q =
    subst (λ k. Q k (loop n (suc first) body (body first a))) (omega arith)
      (loop_ind Q body n (suc first) (body first a) (λ i b hi h. step i b (omega arith) h)
        (step first a (omega arith) q))

-- A cell that one pair of rounds sets to `v`, and that no other pair writes.
pub nest_hit :
    (n m : ℕ) (body : ℕ → ℕ → Cells → Cells) (cells : Cells) (j k r c : ℕ) (v : Bool)
    → j < n
    → k < m
    → ((b : Cells) → body j k b r c ≡ v)
    → ((i l : ℕ) (b : Cells) → i < n → l < m → ((i ≡ j) → (l ≡ k) → ⊥) → body i l b r c ≡ b r c)
    → loop n 0 (λ i. loop m 0 (body i)) cells r c ≡ v
nest_hit n m body cells j k r c v jn km hit keep =
    loop_hit (λ (b : Cells). b r c ≡ v) (λ i. loop m 0 (body i)) n 0 cells j (omega arith)
      (omega arith)
      (λ b.
        loop_hit (λ (d : Cells). d r c ≡ v) (body j) m 0 b k (omega arith) (omega arith) hit
          (λ l d lo hi ne h. keep j l d jn (omega arith) (λ p q. ne q) ∙ h))
      (λ i b lo hi ne h.
        loop_inv (λ (d : Cells). d r c ≡ v) (body i) m 0 b
          (λ l d lo' hi' h'. keep i l d (omega arith) (omega arith) (λ p q. ne p) ∙ h') h)

pub set_cell_at :
    (r' c' r c : ℕ) (v' v : Bool) (b : Cells)
    → r' ≡ r
    → c' ≡ c
    → v' ≡ v
    → set_cell r' c' v' b r c ≡ v
unfolding set_cell
set_cell_at r' c' r c v' v b p q e = ground (arith, p, q, e)

pub set_cell_other :
    (r c r' c' : ℕ) (v : Bool) (b : Cells)
    → ((r ≡ r') → (c ≡ c') → ⊥)
    → set_cell r c v b r' c' ≡ b r' c'
unfolding set_cell
set_cell_other r c r' c' v b h = elim (Bool-cases (r' == r && c' == c)) [
  | inl e ↦ absurd (h (ground (arith, e)) (ground (arith, e)))
  | inr e ↦ rw e refl
]
