-- ===== src/Base/IdSet.antt =====
-- Sets of ids as lists without order: eventIds of the scheduler, and the users and invitations of a
-- chat channel.
use Prim.Native.Nat.{ℕ}
use mathlib.Core.Path.{◌≡◌, refl}
use mathlib.Core.Bool.{Bool, true, false}
use mathlib.Core.List.{List, [], ◌∷◌, ◌++◌}
use native.Mathlib.Omega.{arith}
use tibia_server.Base.Tests.{◌==◌, if◌then◌else◌}

unfoldable pub has : ℕ → List ℕ → Bool
has n [] = false
has n (m ∷ ms) = if m == n then true else has n ms

unfoldable pub insert_id : ℕ → List ℕ → List ℕ
insert_id n ms = if has n ms then ms else n ∷ ms

unfoldable pub erase_id : ℕ → List ℕ → List ℕ
erase_id n [] = []
erase_id n (m ∷ ms) = let rest = erase_id n ms in if m == n then rest else m ∷ rest

pub has-erase_id : (n : ℕ) (ms : List ℕ) → has n (erase_id n ms) ≡ false
unfolding has erase_id
has-erase_id n [] = refl
has-erase_id n (m ∷ ms) = ground (arith, has-erase_id n ms)

pub has-erase_id-false : (n k : ℕ) (ms : List ℕ) → has n ms ≡ false → has n (erase_id k ms) ≡ false
unfolding has erase_id
has-erase_id-false n k [] h = refl
has-erase_id-false n k (m ∷ ms) h = ground (arith, has-erase_id-false n k ms)

pub has-erase_id_other :
    (n k : ℕ) (ms : List ℕ) → (n == k) ≡ false → has n (erase_id k ms) ≡ has n ms
unfolding has erase_id
has-erase_id_other n k [] h = refl
has-erase_id_other n k (m ∷ ms) h = ground (arith, has-erase_id_other n k ms)

pub has-erase_id-true : (n k : ℕ) (ms : List ℕ) → has n (erase_id k ms) ≡ true → has n ms ≡ true
has-erase_id-true n k ms h = grind (arith, has-erase_id-false n k ms, h)

pub has-insert_id :
    (n k : ℕ) (ms : List ℕ) → has n (insert_id k ms) ≡ (if k == n then true else has n ms)
unfolding has insert_id
has-insert_id n k ms = ground arith

pub has-append :
    (n : ℕ) (ms : List ℕ) (k : ℕ) → has n (ms ++ k ∷ []) ≡ (if has n ms then true else k == n)
unfolding has
has-append n [] k = ground arith
has-append n (m ∷ ms) k = ground (arith, has-append n ms k)
