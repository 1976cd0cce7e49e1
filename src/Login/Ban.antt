-- ===== src/Login/Ban.antt =====
-- Ban::acceptConnection of compiler/src/ban.cpp, with ConnectBlock of ban.h. The map from addresses
-- is a function; the time, in milliseconds, is an argument. Times and counts do not wrap. The signed
-- difference `timeDiff` is only compared with bounds from above, so a clock that has gone back reads
-- as a difference of 0. The bans in the database (IOBan) are not part of it.
pub mod Flood
use tibia_server.Base.{
  ℕ, ◌+◌, ◌-◌, Bool, true, false, ltb, leb, ◌==◌, if◌then◌else◌, Option, none, some, List, [], ◌∷◌,
}

pub record ConnectBlock : Type 0 where
  pub last_attempt : ℕ
  pub block_time : ℕ
  pub count : ℕ

abbrev pub IpConnectMap : Type 0
IpConnectMap = ℕ → Option ConnectBlock

pub store : ℕ → ConnectBlock → IpConnectMap → IpConnectMap
store ip b m i = if i == ip then some b else m i

-- The code below the search in the map.
unfoldable pub attempt : ℕ → ConnectBlock → Bool × ConnectBlock
attempt now b =
    if ltb now b.block_time
    then (false, record b { block_time = b.block_time + 250 })
    else if leb (now - b.last_attempt) 5000
    then (if ltb 5 (b.count + 1)
        then (if leb (now - b.last_attempt) 500
            then (false, record { last_attempt = now; block_time = now + 3000; count = 0 })
            else (true, record b { last_attempt = now; count = 0 }))
        else (true, record b { last_attempt = now; count = b.count + 1 }))
    else (true, record b { last_attempt = now; count = 1 })

abbrev pub first_block : ℕ → ConnectBlock
first_block now = record { last_attempt = now; block_time = 0; count = 1 }

abbrev pub attempt_entry : ℕ → Option ConnectBlock → Bool × ConnectBlock
attempt_entry now none = (true, first_block now)
attempt_entry now (some b) = attempt now b

pub accept_connection : ℕ → ℕ → IpConnectMap → Bool × IpConnectMap
accept_connection now ip m = let (ok, b) = attempt_entry now (m ip) in (ok, store ip b m)

-- A history of attempts, each a time and an address: the answers to those of one address.
pub answers_to : ℕ → List (ℕ × ℕ) → IpConnectMap → List Bool
answers_to ip [] m = []
answers_to ip ((now, i) ∷ h) m =
    let (ok, m') = accept_connection now i m in
    let rest = answers_to ip h m' in if i == ip then ok ∷ rest else rest
