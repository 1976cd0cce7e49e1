-- ===== src/Money.antt =====
-- Paying with coins: Game::addMoney and Game::removeMoney (compiler/src/game.cpp) and
-- Item::getWorth (compiler/src/item.cpp). Coins are given and taken as piles of one kind. The coins
-- that the search through a player's containers meets are an argument, in its order; whether a pile
-- that is added lands in the inventory or on the ground is left out.
pub mod Conserved
mod Tests
use tibia_server.Base.{
  ℕ, zero, suc, ◌+◌, ◌-◌, ◌*◌, ◌/◌, ◌%◌, ◌≤◌, ◌<◌, min, Bool, true, false, List, [], ◌∷◌, ◌++◌,
  Option, none, some, ltb, leb, ◌==◌, if◌then◌else◌, ◌≡◌, refl, arith, All, Bool-cases, inl, inr,
}
use tibia_server.Base.Word.{u32_mod, u16_mod}

pub data Coin : Type 0 where
  gold platinum crystal bar : Coin

pub record Pile : Type 0 where
  pub coin : Coin
  pub count : ℕ

-- The worth of one coin.
abbrev pub unit_worth : Coin → ℕ
unit_worth gold = 1
unit_worth platinum = 100
unit_worth crystal = 10000
unit_worth bar = 1000000

abbrev pub get_worth : Pile → ℕ
get_worth p = p.count * unit_worth p.coin

-- The loop of addMoney over the crystal coins, with fuel for each coin.
unfoldable pub add_crystals : ℕ → ℕ → List Pile
add_crystals zero coins = []
add_crystals (suc fuel) coins =
    let rest = add_crystals fuel (coins - min 100 coins) in
    if coins == 0 then [] else record { coin = crystal; count = min 100 coins } ∷ rest

-- The piles that addMoney adds. A product of two words of 32 bits is one of 32 bits.
unfoldable pub add_money : ℕ → List Pile
unfolding add_crystals
add_money money =
    let crystals = money / 10000 % u32_mod in
    let money' = money - crystals * 10000 % u32_mod in
    let platinums = money' / 100 % u16_mod in
    let golds = money' - platinums * 100 in
    add_crystals crystals crystals
    ++ (if platinums == 0 then [] else record { coin = platinum; count = platinums } ∷ [])
    ++ (if golds == 0 then [] else record { coin = gold; count = golds % u16_mod } ∷ [])

-- A std::multimap from worth to piles: new entries come behind those that are worth the same.
unfoldable pub emplace : Pile → List Pile → List Pile
emplace p [] = p ∷ []
emplace p (q ∷ qs) =
    let rest = emplace p qs in if ltb (get_worth p) (get_worth q) then p ∷ q ∷ qs else q ∷ rest

-- The piles entered one after the other, those that are met first first.
unfoldable pub emplace_all : List Pile → List Pile → List Pile
unfolding emplace
emplace_all [] sorted = sorted
emplace_all (p ∷ ps) sorted = emplace_all ps (emplace p sorted)

unfoldable pub by_worth : List Pile → List Pile
unfolding emplace_all
by_worth ps = emplace_all ps []

abbrev pub total : List Pile → ℕ
total [] = 0
total (p ∷ ps) = get_worth p + total ps

-- Rounding up the quotient.
abbrev pub div_ceil : ℕ → ℕ → ℕ
div_ceil a b = (a + (b - 1)) / b

-- A part of a pile, which is worth more than is to be paid: what is left, and the change. Where no
-- coin is left, the pile stands in the list with none.
unfoldable pub take_part : ℕ → Pile → List Pile → List Pile × List Pile
unfolding add_money
take_part money p ps =
    let worth = get_worth p / p.count in
    let remove_count = div_ceil money worth in
    (record p { count = p.count - remove_count } ∷ ps, add_money (worth * remove_count - money))

-- The loop of removeMoney: what is left of the piles, and the change.
unfoldable pub remove_from : ℕ → List Pile → List Pile × List Pile
unfolding take_part
remove_from money [] = ([], [])
remove_from money (p ∷ ps) =
    let rest = remove_from (money - get_worth p) ps in
    if ltb (get_worth p) money
    then rest
    else if ltb money (get_worth p)
    then take_part money p ps
    else (ps, [])

unfoldable pub remove_money : ℕ → List Pile → Option (List Pile × List Pile)
unfolding remove_from by_worth
remove_money money piles =
    if money == 0
    then some (piles, [])
    else if ltb (total piles) money
    then none
    else some (remove_from money (by_worth piles))
