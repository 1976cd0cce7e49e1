-- ===== src/Money/Conserved.antt =====
-- No money is made or lost in paying.
use tibia_server.Base.{
  ℕ, zero, suc, ◌+◌, ◌-◌, ◌*◌, ◌/◌, ◌%◌, ◌≤◌, ◌<◌, min, Bool, true, false, List, [], ◌∷◌, ◌++◌,
  Option, none, some, ltb, ◌==◌, if◌then◌else◌, ◌≡◌, refl, ap₂, ℕ_discrete, ◌∙◌, arith, Bool-cases,
  inl, inr, ltb→lt,
}
use tibia_server.Base.Update.{==_no}
use native.Mathlib.Nat.{mul-div_cancel_left}
use tibia_server.Money.{
  Coin, gold, platinum, crystal, bar, Pile, unit_worth, get_worth, add_crystals, add_money, emplace,
  emplace_all, by_worth, total, div_ceil, take_part, remove_from, remove_money,
}

total-append : (ps qs : List Pile) → total (ps ++ qs) ≡ total ps + total qs
total-append [] qs = omega arith
total-append (p ∷ ps) qs = omega (arith, total-append ps qs)

add_crystals-total : (fuel c : ℕ) → c ≤ fuel → total (add_crystals fuel c) ≡ c * 10000
unfolding add_crystals
add_crystals-total zero c h = omega arith
add_crystals-total (suc fuel) c h = elim (Bool-cases (c == 0)) [
  | inl e ↦ rw (add_crystals, e) (ground (arith, e))
  | inr e ↦
      let some_coins : 0 < c = ground (arith, e) in
      rw (add_crystals, e) (omega (arith, add_crystals-total fuel (c - min 100 c) (omega arith)))
]

one_pile :
    (c : Coin) (n k : ℕ)
    → total (if n == 0 then [] else record { coin = c; count = k } ∷ [])
      ≡ (if n == 0 then 0 else k * unit_worth c)
one_pile c n k = pick (n == 0)
  where
    pick :
        (b : Bool)
        → total (if b then [] else record { coin = c; count = k } ∷ [])
          ≡ (if b then 0 else k * unit_worth c)
    pick true = refl
    pick false = omega arith

-- addMoney adds piles that are worth what it was given, below 2 ^ 32.
pub add_money-total : (money : ℕ) → money < 4294967296 → total (add_money money) ≡ money
unfolding add_money
add_money-total money h =
    let crystals = money / 10000 % 4294967296 in
    let money' = money - crystals * 10000 % 4294967296 in
    let platinums = money' / 100 % 65536 in
    let golds = money' - platinums * 100 in
    let platinum_piles : List Pile =
      if platinums == 0 then [] else record { coin = platinum; count = platinums } ∷ [] in
    let gold_piles : List Pile =
      if golds == 0 then [] else record { coin = gold; count = golds % 65536 } ∷ [] in
    let split = total-append (add_crystals crystals crystals ++ platinum_piles) gold_piles in
    let split' = total-append (add_crystals crystals crystals) platinum_piles in
    let some_platinums : (if platinums == 0 then 0 else platinums * 100) ≡ platinums * 100 =
      nothing platinums 100 in
    let few : golds % 65536 ≡ golds = omega (arith, h) in
    let some_golds : (if golds == 0 then 0 else golds * 1) ≡ golds * 1 = nothing golds 1 in
    let all_crystals = add_crystals-total crystals crystals (omega arith) in
    let gold_pile : total
          (if golds == 0 then [] else record { coin = gold; count = golds % 65536 } ∷ [])
        ≡ golds =
      one_pile gold golds (golds % 65536) ∙ rw few (some_golds ∙ omega arith) in
    let platinum_pile : total
          (if platinums == 0 then [] else record { coin = platinum; count = platinums } ∷ [])
        ≡ platinums * 100 =
      one_pile platinum platinums platinums ∙ some_platinums in
    let parts : crystals * 10000 + platinums * 100 + golds ≡ money = omega (arith, h) in
    split
    ∙ ap₂ (λ a b. a + b) (split' ∙ ap₂ (λ a b. a + b) all_crystals platinum_pile) gold_pile
    ∙ parts
  where
    nothing : (n u : ℕ) → (if n == 0 then 0 else n * u) ≡ n * u
    nothing zero u = omega arith
    nothing (suc n) u = rw (==_no (suc n) 0 (λ e. omega (arith, e))) refl

emplace-total : (p : Pile) (ps : List Pile) → total (emplace p ps) ≡ get_worth p + total ps
unfolding emplace
emplace-total p [] = refl
emplace-total p (q ∷ qs) = elim (Bool-cases (ltb (get_worth p) (get_worth q))) [
  | inl e ↦ rw (emplace, e) refl
  | inr e ↦ rw (emplace, e) (omega (arith, emplace-total p qs))
]

emplace_all-total : (ps qs : List Pile) → total (emplace_all ps qs) ≡ total ps + total qs
unfolding emplace_all
emplace_all-total [] qs = omega arith
emplace_all-total (p ∷ ps) qs =
    omega (arith, emplace-total p qs, emplace_all-total ps (emplace p qs))

by_worth-total : (ps : List Pile) → total (by_worth ps) ≡ total ps
unfolding by_worth
by_worth-total ps = emplace_all-total ps [] ∙ omega arith

-- What is left and the change, together with what was paid, make what was there.
abbrev pub Conserves : ℕ → List Pile → List Pile × List Pile → Type 0
Conserves money ps r = total r.0 + total r.1 + money ≡ total ps

one_coin : (n : ℕ) (c : Coin) → 0 < n → n * unit_worth c / n ≡ unit_worth c
one_coin n c h = mul-div_cancel_left (unit_worth c) h

take_part-Conserves :
    (money : ℕ) (p : Pile) (ps : List Pile)
    → 0 < money
    → money < get_worth p
    → Conserves money (p ∷ ps) (take_part money p ps)
unfolding take_part
take_part-Conserves money p ps pos less = elim (ℕ_discrete p.count 0) [
  | yes empty ↦ absurd (nothing p.coin p.count empty less)
  | no some_coins ↦
      rw (one_coin p.count p.coin (omega (arith, some_coins))) (counted p.coin p.count less)
]
  where
    nothing : (c : Coin) (n : ℕ) → n ≡ 0 → money < n * unit_worth c → ⊥
    nothing gold n e h = omega (arith, e)
    nothing platinum n e h = omega (arith, e)
    nothing crystal n e h = omega (arith, e)
    nothing bar n e h = omega (arith, e)

    counted :
        (c : Coin) (n : ℕ)
        → money < n * unit_worth c
        → (n - div_ceil money (unit_worth c)) * unit_worth c
            + total ps
            + total (add_money (unit_worth c * div_ceil money (unit_worth c) - money))
            + money
          ≡ n * unit_worth c + total ps
    counted gold n h = omega (arith, add_money-total (1 * div_ceil money 1 - money) (omega arith))
    counted platinum n h =
        omega (arith, add_money-total (100 * div_ceil money 100 - money) (omega arith))
    counted crystal n h =
        omega (arith, add_money-total (10000 * div_ceil money 10000 - money) (omega arith))
    counted bar n h =
        omega (arith, add_money-total (1000000 * div_ceil money 1000000 - money) (omega arith))

remove_from-Conserves :
    (money : ℕ) (ps : List Pile)
    → 0 < money
    → money ≤ total ps
    → Conserves money ps (remove_from money ps)
unfolding remove_from
remove_from-Conserves money [] pos enough = absurd (omega arith)
remove_from-Conserves money (p ∷ ps) pos enough = elim (Bool-cases (ltb (get_worth p) money)) [
  | inl e ↦
      let less : get_worth p < money = ltb→lt _ _ e in
      rw (remove_from, e)
        (omega (
          arith,
          less,
          remove_from-Conserves (money - get_worth p) ps (omega (arith, less)) (omega arith),
        ))
  | inr e ↦ elim (Bool-cases (ltb money (get_worth p))) [
    | inl f ↦ rw (remove_from, e, f) (take_part-Conserves money p ps pos (ltb→lt _ _ f))
    | inr f ↦ rw (remove_from, e, f) (ground (arith, e, f))
  ]
]

abbrev pub Pays : ℕ → List Pile → Option (List Pile × List Pile) → Type 0
Pays money ps none = total ps < money
Pays money ps (some r) = (money ≤ total ps) × Conserves money ps r

-- removeMoney fails only where the coins are worth less than is asked for, and else what is left and
-- the change, together with what was paid, are worth what was there.
pub remove_money-Pays : (money : ℕ) (ps : List Pile) → Pays money ps (remove_money money ps)
unfolding remove_money
remove_money-Pays money ps = elim (Bool-cases (money == 0)) [
  | inl z ↦
      let none_asked : money ≡ 0 = ground (arith, z) in
      rw (remove_money, z) (omega (arith, none_asked), omega (arith, none_asked))
  | inr z ↦ elim (Bool-cases (ltb (total ps) money)) [
    | inl e ↦ rw (remove_money, z, e) (ltb→lt _ _ e)
    | inr e ↦
        let pos : 0 < money = ground (arith, z) in
        let enough : money ≤ total ps = ground (arith, e) in
        let sorted = by_worth-total ps in
        rw (remove_money, z, e)
          (
            enough,
            remove_from-Conserves money (by_worth ps) pos (omega (arith, enough, sorted)) ∙ sorted,
          )
  ]
]
