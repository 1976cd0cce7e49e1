-- ===== src/Login/Ban/Flood.antt =====
-- Attempts in quick succession do not all get through.
use tibia_server.Base.{
  ℕ, ◌+◌, ◌-◌, ◌≤◌, ◌≡◌, refl, true, false, List, [], ◌∷◌, Option, none, some, arith, length, Bool,
  Bool-cases, inl, inr, subst, ap, ◌∙◌, ◌==◌, if◌then◌else◌,
}
use tibia_server.Login.Ban.{
  ConnectBlock, IpConnectMap, attempt, attempt_entry, store, accept_connection, answers_to,
}

-- The times of the attempts of one address.
abbrev pub times_of : ℕ → List (ℕ × ℕ) → List ℕ
times_of ip [] = []
times_of ip ((now, i) ∷ h) = if i == ip then now ∷ times_of ip h else times_of ip h

-- The answers that one entry of the map gives by itself.
entry_answers : List ℕ → Option ConnectBlock → List Bool
entry_answers [] e = []
entry_answers (t ∷ ts) e = (attempt_entry t e).0 ∷ entry_answers ts (some (attempt_entry t e).1)

store_self : (ip : ℕ) (b : ConnectBlock) (m : IpConnectMap) → store ip b m ip ≡ some b
unfolding store
store_self ip b m = ground arith

store_ne :
    (ip i : ℕ) (b : ConnectBlock) (m : IpConnectMap) → (i == ip) ≡ false → store i b m ip ≡ m ip
unfolding store
store_ne ip i b m other = ground arith

-- The attempts of other addresses change nothing for an address.
answers_to-entry_answers :
    (ip : ℕ) (h : List (ℕ × ℕ)) (m : IpConnectMap)
    → answers_to ip h m ≡ entry_answers (times_of ip h) (m ip)
unfolding answers_to entry_answers
answers_to-entry_answers ip [] m = refl
answers_to-entry_answers ip ((now, i) ∷ h) m = elim (Bool-cases (i == ip)) [
  | inl same ↦
      let e : i ≡ ip = ground arith in
      rw (same, answers_to-entry_answers ip h (accept_connection now i m).1) (rw e (own_entry m))
  | inr other ↦
      rw (other, answers_to-entry_answers ip h (accept_connection now i m).1)
        (ap (entry_answers (times_of ip h)) (unfold accept_connection in store_ne ip i _ m other))
]
  where
    own_entry :
        (m : IpConnectMap)
        → (accept_connection now ip m).0
            ∷ entry_answers (times_of ip h) ((accept_connection now ip m).1 ip)
          ≡ (attempt_entry now (m ip)).0
            ∷ entry_answers (times_of ip h) (some (attempt_entry now (m ip)).1)
    own_entry m = unfold accept_connection in rw (store_self ip (attempt_entry now (m ip)).1 m)

-- Each time is at most 500 ms after the one before, the first after `t`.
abbrev pub IsBurst : ℕ → List ℕ → Type 0
IsBurst t [] = Unit
IsBurst t (u ∷ us) = (t ≤ u) × (u ≤ t + 500) × IsBurst u us

abbrev pub AllTrue : List Bool → Type 0
AllTrue [] = Unit
AllTrue (b ∷ bs) = (b ≡ true) × AllTrue bs

attempt-burst :
    (t : ℕ) (b : ConnectBlock)
    → b.last_attempt ≤ t
    → t ≤ b.last_attempt + 500
    → (attempt t b).0 ≡ true
    → b.block_time ≤ t
    → ((attempt t b).1.count ≡ b.count + 1)
      × (b.count + 1 ≤ 5)
      × ((attempt t b).1.last_attempt ≡ t)
      × ((attempt t b).1.block_time ≤ t)
unfolding attempt
attempt-burst t b lo hi ok free = ground arith

attempt-true : (t : ℕ) (b : ConnectBlock) → (attempt t b).0 ≡ true → b.block_time ≤ t
unfolding attempt
attempt-true t b ok = ground arith

-- What an accepted attempt leaves.
attempt_entry_after :
    (t : ℕ) (e : Option ConnectBlock)
    → (attempt_entry t e).0 ≡ true
    → ((attempt_entry t e).1.last_attempt ≡ t) × ((attempt_entry t e).1.block_time ≤ t)
attempt_entry_after t none ok = (refl, omega arith)
attempt_entry_after t (some b) ok = unfold attempt in ground arith

burst-length :
    (ts : List ℕ) (b : ConnectBlock)
    → b.block_time ≤ b.last_attempt
    → IsBurst b.last_attempt ts
    → AllTrue (entry_answers ts (some b))
    → length ts ≤ 5 - b.count
unfolding entry_answers
burst-length [] b free burst ok = omega arith
burst-length (t ∷ ts) b free burst ok =
    let step = attempt-burst t b burst.0 burst.1 ok.0 (omega arith) in
    let later = burst-length ts (attempt t b).1 (omega (arith, step)) (rw step.2 burst.2) ok.1 in
    omega (arith, step, later)

-- Of the attempts of one address, whatever other addresses do between them, seven in a row are
-- never all accepted, if each but the first comes at most 500 ms after the one before.
pub answers_to-burst :
    (ip t : ℕ) (ts : List ℕ) (h : List (ℕ × ℕ)) (m : IpConnectMap)
    → times_of ip h ≡ t ∷ ts
    → IsBurst t ts
    → 6 ≤ length ts
    → ¬ AllTrue (answers_to ip h m)
unfolding entry_answers
answers_to-burst ip t ts h m times burst long ok =
    omega (arith, burst-length ts first.1 (omega (arith, after)) (rw after.0 burst) own.1, long)
  where
    first : Bool × ConnectBlock
    first = attempt_entry t (m ip)

    own : AllTrue (entry_answers (t ∷ ts) (m ip))
    own =
        subst AllTrue (answers_to-entry_answers ip h m ∙ ap (λ l. entry_answers l (m ip)) times) ok

    after : (first.1.last_attempt ≡ t) × (first.1.block_time ≤ t)
    after = attempt_entry_after t (m ip) own.0
