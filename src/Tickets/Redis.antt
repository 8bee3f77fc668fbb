-- ===== src/Tickets/Redis.antt =====
-- backend/app/auth/redis_tickets.py: `RedisTicketStore`. The server is a parameter: a command gives `none`
-- where it cannot be reached, and the laws say what its commands document of keys that expire. Time
-- is counted as in the store in memory; an error of `issue` is the `none` of its result.
use nexa_assist.Common.{
  ℕ, ◌+◌, ◌≤◌, String, ◌≡◌, ◌⊎◌, refl, sym, ap, ◌∙◌, inl, inr, Option, none, some, arith, leb,
  if◌then◌else◌, string_key, ◌==◌, ==_iff, Option-cases, Bool-cases,
}
use nexa_assist.Dict.{lookup, lookup-erase, IsDict}
use nexa_assist.Names.{◌+++◌, +++_cancel}
use nexa_assist.Tickets.{TicketStore, subject_at}
use nexa_assist.Tickets
use nexa_assist.Tickets.SingleUse.{issue-live, issued_entry, live_at}

pub record TicketServer (S : Type 0) : Type 0 where
  -- what is stored under a key at a time
  pub holds : S → ℕ → String → Option String
  pub set : S → ℕ → String → String → ℕ → Option S
  pub getdel : S → ℕ → String → Option (Option String × S)
  pub set_law :
      (s s' : S) (now t : ℕ) (k j v : String) (ex : ℕ)
      → set s now k v ex ≡ some s'
      → now ≤ t
      → holds s' t j ≡ (if k == j then (if leb (now + ex) t then none else some v) else holds s t j)
  pub getdel_law :
      (s s' : S) (now : ℕ) (k : String) (r : Option String)
      → getdel s now k ≡ some (r, s')
      → r ≡ holds s now k
  pub getdel_gone :
      (s s' : S) (now t : ℕ) (k j : String) (r : Option String)
      → getdel s now k ≡ some (r, s')
      → now ≤ t
      → holds s' t j ≡ (if k == j then none else holds s t j)

-- f"{self._ns}:{ticket}"
unfoldable pub key : String → String → String
key ns ticket = (ns +++ ":") +++ ticket

pub key_same : (ns a b : String) → (key ns a == key ns b) ≡ (a == b)
unfolding key
key_same ns a b = ground (
  arith,
  ==_iff (key ns a) (key ns b),
  ==_iff a b,
  +++_cancel (ns +++ ":") a b,
  λ (e : a ≡ b). ap (key ns) e,
)

-- The server's answer, or the refusal without one.
abbrev pub or_refused : {S : Type 0} → S → Option (Option String × S) → Option String × S
or_refused s none = (none, s)
or_refused s (some answered) = answered

-- What has expired now has expired later.
subject_at-live_at :
    (now t : ℕ) (e : Option (String × ℕ)) → now ≤ t → subject_at t (live_at now e) ≡ subject_at t e
subject_at-live_at now t none h = refl
subject_at-live_at now t (some (subject, expires_at)) h = ground arith

issued_subject :
    (m : TicketStore) (new j subject : String) (now t : ℕ)
    → IsDict m.tickets
    → now ≤ t
    → subject_at t (lookup j (Tickets.issue m new subject now now).1.tickets) ≡ (
        if new == j
        then (if leb (now + m.ttl) t then none else some subject)
        else subject_at t (lookup j m.tickets))
issued_subject m new j subject now t d later = elim (Bool-cases (new == j)) [
  | inl same ↦ rw (same) (
      ap (λ i. subject_at t (lookup i (Tickets.issue m new subject now now).1.tickets))
        (sym ((==_iff new j).0 same))
      ∙ ap (subject_at t) (issued_entry m new subject now now))
  | inr other ↦ rw (other) (
      ap (subject_at t) (issue-live m new j subject now now d other)
      ∙ subject_at-live_at now t (lookup j m.tickets) later)
]

module _ {S : Type 0} (server : TicketServer S) (ns : String) (ttl : ℕ) where
  -- `issue`, with the new ticket
  unfoldable pub issue : S → ℕ → String → String → Option (String × S)
  issue s now new subject = elim (server.set s now (key ns new) subject ttl) [
    | none ↦ none
    | some s' ↦ some (new, s')
  ]

  unfoldable pub redeem : S → ℕ → String → Option String × S
  redeem s now ticket = or_refused s (server.getdel s now (key ns ticket))

  -- From a time on, the server holds the tickets that the store in memory would redeem.
  abbrev pub AgreesFrom : ℕ → S → TicketStore → Type 0
  AgreesFrom now s m =
      (t : ℕ) (ticket : String)
      → now ≤ t
      → server.holds s t (key ns ticket) ≡ subject_at t (lookup ticket m.tickets)

  -- On a server that holds the tickets of the store in memory, redeeming gives what redeeming in memory
  -- gives and leaves them agreeing, from this time on; only where the command gives no answer, so that
  -- the server cannot be reached, the ticket is refused and the server is as before.
  pub redeem-AgreesFrom :
      (s : S) (m : TicketStore) (now : ℕ) (ticket : String)
      → AgreesFrom now s m
      → let r = redeem s now ticket in
        let kept = Tickets.redeem m ticket now in
        ((server.getdel s now (key ns ticket) ≡ none) × (r.0 ≡ none) × (r.1 ≡ s))
        ⊎ ((r.0 ≡ kept.0) × AgreesFrom now r.1 kept.1)
  unfolding redeem Tickets.redeem
  redeem-AgreesFrom s m now ticket a = elim (Option-cases (server.getdel s now (key ns ticket))) [
    | inl down ↦ inl (down, rw (down) refl, rw (down) refl)
    | inr ((r, s'), got) ↦ inr (
        rw (got) (
          server.getdel_law s s' now (key ns ticket) r got ∙ a now ticket (omega arith),
          λ t j later.
              server.getdel_gone s s' now t (key ns ticket) (key ns j) r got later
              ∙ ground (arith, key_same ns ticket j, lookup-erase ticket j m.tickets, a t j later),
        ))
  ]

  -- Issuing on the server does what issuing in memory does, if the server can be reached.
  pub issue-AgreesFrom :
      (s s' : S) (m : TicketStore) (now : ℕ) (new ticket subject : String)
      → issue s now new subject ≡ some (ticket, s')
      → m.ttl ≡ ttl
      → IsDict m.tickets
      → AgreesFrom now s m
      → (ticket ≡ new) × AgreesFrom now s' (Tickets.issue m new subject now now).1
  unfolding issue
  issue-AgreesFrom s s' m now new ticket subject h same_ttl d a =
      elim (Option-cases (server.set s now (key ns new) subject ttl)) [
        | inl down ↦ absurd (ground arith)
        | inr (s'', stored) ↦
            let same : s'' ≡ s' = ground arith in
            (
              ground arith,
              λ t j later. rw (← same) (
                  server.set_law s s'' now t (key ns new) (key ns j) subject ttl stored later
                  ∙ rw (key_same ns new j) (
                      rw (a t j later)
                        (rw (← same_ttl) (sym (issued_subject m new j subject now t d later))))),
            )
      ]
