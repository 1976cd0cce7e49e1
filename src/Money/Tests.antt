-- ===== src/Money/Tests.antt =====
-- A purse.
use tibia_server.Base.{List, [], ◌∷◌, some, ◌≡◌, refl}
use tibia_server.Money.{
  Pile, gold, platinum, crystal, remove_money, remove_from, take_part, add_money, add_crystals,
  by_worth, emplace_all, emplace,
}
use tibia_server.Money.Conserved.{Pays, remove_money-Pays}

abbrev purse : List Pile
purse =
    record { coin = crystal; count = 1 }
    ∷ record { coin = gold; count = 40 }
    ∷ record { coin = platinum; count = 3 }
    ∷ []

-- 150 gold from the purse: all the gold, and two of the platinum coins with change.
paid :
    remove_money 150 purse
    ≡ some (
      record { coin = platinum; count = 1 } ∷ record { coin = crystal; count = 1 } ∷ [],
      record { coin = gold; count = 90 } ∷ [],
    )
unfolding remove_money remove_from take_part add_money add_crystals by_worth emplace_all emplace
paid = refl

-- Of two piles of the same worth, the one that was met first is taken from.
paid_from_first :
    remove_money 50
      (record { coin = gold; count = 100 } ∷ record { coin = platinum; count = 1 } ∷ [])
    ≡ some (record { coin = gold; count = 50 } ∷ record { coin = platinum; count = 1 } ∷ [], [])
unfolding remove_money remove_from take_part add_money add_crystals by_worth emplace_all emplace
paid_from_first = refl

remove_money-Pays_example : Pays 150 purse (remove_money 150 purse)
remove_money-Pays_example = remove_money-Pays 150 purse
