-- ===== src/Tickets/Tests.antt =====
-- Tests of the ticket store, and its theorems at a concrete store.
use nexa_assist.Common.{
  ℕ, ◌+◌, ◌≤◌, ◌≡◌, ◌⊎◌, refl, String, Option, none, some, [], ◌∷◌, arith, leb, if◌then◌else◌,
  string_key, ◌==◌,
}
use nexa_assist.Dict.{Dict, lookup, insert, erase, IsDict, lookup-insert, lookup-erase}
use nexa_assist.Names.{◌+++◌}
use nexa_assist.Tickets.{TicketStore, redeem, subject_at}
use nexa_assist.Tickets.Redis
use nexa_assist.Tickets.Redis.{TicketServer, AgreesFrom, key, key_same, redeem-AgreesFrom}

abbrev store : TicketStore
store = record { ttl = 60; tickets = ("t1", ("al", 70)) ∷ ("t2", ("bo", 20)) ∷ [] }

store-IsDict : IsDict store.tickets
unfolding lookup
store-IsDict = (refl, (refl, tt))

spent_and_expired : (redeem store "t2" 30).0 ≡ none
unfolding redeem lookup
spent_and_expired = refl

abbrev Entries : Type 0
Entries = Dict String (String × ℕ)

held_set :
    (s s' : Entries) (now t : ℕ) (k j v : String) (ex : ℕ)
    → some (insert k (v, now + ex) s) ≡ some s'
    → now ≤ t
    → subject_at t (lookup j s')
      ≡ (if k == j then (if leb (now + ex) t then none else some v) else subject_at t (lookup j s))
held_set s s' now t k j v ex e later =
    let same : insert k (v, now + ex) s ≡ s' = ground arith in
    rw (← same) (ground (arith, lookup-insert k j (v, now + ex) s))

abbrev got : Entries → ℕ → String → Option (Option String × Entries)
got s now k = some (subject_at now (lookup k s), erase k s)

held_got :
    (s s' : Entries) (now : ℕ) (k : String) (r : Option String)
    → got s now k ≡ some (r, s')
    → r ≡ subject_at now (lookup k s)
held_got s s' now k r e = ground arith

held_gone :
    (s s' : Entries) (now t : ℕ) (k j : String) (r : Option String)
    → got s now k ≡ some (r, s')
    → now ≤ t
    → subject_at t (lookup j s') ≡ (if k == j then none else subject_at t (lookup j s))
held_gone s s' now t k j r e later =
    let same : erase k s ≡ s' = ground arith in rw (← same) (ground (arith, lookup-erase k j s))

-- A server that is always there.
abbrev server : TicketServer Entries
server = record {
  holds = λ s t k. subject_at t (lookup k s);
  set = λ s now k v ex. some (insert k (v, now + ex) s);
  getdel = got;
  set_law = held_set;
  getdel_law = held_got;
  getdel_gone = held_gone;
}

abbrev held : Entries
held = (key "tickets" "t1", ("al", 70)) ∷ []

abbrev one : TicketStore
one = record { ttl = 60; tickets = ("t1", ("al", 70)) ∷ [] }

held-AgreesFrom : AgreesFrom server "tickets" 60 20 held one
unfolding lookup
held-AgreesFrom t ticket later = ground (arith, key_same "tickets" "t1" ticket)

redeem-AgreesFrom_example :
    let r = Redis.redeem server "tickets" 60 held 20 "t1" in
    let kept = redeem one "t1" 20 in
    ((server.getdel held 20 (key "tickets" "t1") ≡ none) × (r.0 ≡ none) × (r.1 ≡ held))
    ⊎ ((r.0 ≡ kept.0) × AgreesFrom server "tickets" 60 20 r.1 kept.1)
redeem-AgreesFrom_example = redeem-AgreesFrom server "tickets" 60 held one 20 "t1" held-AgreesFrom

-- The ticket is one that is redeemed.
redeemed_once : (Redis.redeem server "tickets" 60 held 20 "t1").0 ≡ some "al"
unfolding Redis.redeem lookup key ◌+++◌
redeemed_once = refl
