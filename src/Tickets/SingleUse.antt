-- ===== src/Tickets/SingleUse.antt =====
-- A ticket is good once and until it expires, whatever happens to other tickets in between.
use nexa_assist.Common.{
  ℕ, ◌+◌, ◌≤◌, String, ◌≡◌, refl, ◌∙◌, Bool, false, Option, none, some, List, [], ◌∷◌, arith, leb,
  if◌then◌else◌, string_key, ==_iff, ◌==◌, All,
}
use nexa_assist.Dict.{
  lookup, lookup-insert, lookup-erase, Dict, IsDict, insert-IsDict, erase-IsDict,
}
use nexa_assist.Tickets.{TicketStore, pruned, issue, redeem}

-- The entry of a ticket unless it has expired.
abbrev pub live_at : ℕ → Option (String × ℕ) → Option (String × ℕ)
live_at now none = none
live_at now (some (subject, expires_at)) =
    if leb expires_at now then none else some (subject, expires_at)

lookup-pruned :
    (now : ℕ) (k : String) (d : Dict String (String × ℕ))
    → IsDict d
    → lookup k (pruned now d) ≡ live_at now (lookup k d)
unfolding lookup pruned
lookup-pruned now k [] h = refl
lookup-pruned now k ((j, (subject, expires_at)) ∷ d) h =
    ground (arith, ==_iff j k, lookup-pruned now k d h.1)

pruned-IsDict : (now : ℕ) (d : Dict String (String × ℕ)) → IsDict d → IsDict (pruned now d)
unfolding pruned
pruned-IsDict now [] h = tt
pruned-IsDict now ((j, (subject, expires_at)) ∷ d) h =
    ground (arith, pruned-IsDict now d h.1, lookup-pruned now j d h.1)

-- What can happen to a store: a ticket is issued, with the two readings of the clock, or redeemed.
pub data Call : Type 0 where
  issued : String → String → ℕ → ℕ → Call
  redeemed : String → ℕ → Call

abbrev pub step : TicketStore → Call → TicketStore
step s (issued new subject pruned_at issued_at) = (issue s new subject pruned_at issued_at).1
step s (redeemed ticket now) = (redeem s ticket now).1

unfoldable pub run : TicketStore → List Call → TicketStore
run s [] = s
run s (c ∷ calls) = run (step s c) calls

abbrev pub mints : String → Call → Bool
mints t (issued new _ _ _) = new == t
mints t (redeemed _ _) = false

abbrev pub names : String → Call → Bool
names t (issued new _ _ _) = new == t
names t (redeemed ticket _) = ticket == t

-- No reading of the clock is after `later`.
abbrev pub Before : ℕ → Call → Type 0
Before later (issued _ _ pruned_at issued_at) = pruned_at ≤ later
Before later (redeemed _ now) = Unit

step-IsDict : (s : TicketStore) (c : Call) → IsDict s.tickets → IsDict (step s c).tickets
unfolding issue redeem
step-IsDict s (issued new subject pruned_at issued_at) h =
    insert-IsDict new (subject, issued_at + s.ttl) (pruned pruned_at s.tickets)
      (pruned-IsDict pruned_at s.tickets h)
step-IsDict s (redeemed ticket now) h = erase-IsDict ticket s.tickets h

step-spent :
    (s : TicketStore) (c : Call) (t : String)
    → IsDict s.tickets
    → mints t c ≡ false
    → lookup t s.tickets ≡ none
    → lookup t (step s c).tickets ≡ none
unfolding issue redeem
step-spent s (issued new subject pruned_at issued_at) t h m e =
    rw lookup-insert (rw m (ground (arith, lookup-pruned pruned_at t s.tickets h)))
step-spent s (redeemed ticket now) t h m e = rw lookup-erase (ground arith)

run-spent :
    (s : TicketStore) (calls : List Call) (t : String)
    → IsDict s.tickets
    → All (λ c. mints t c ≡ false) calls
    → lookup t s.tickets ≡ none
    → lookup t (run s calls).tickets ≡ none
unfolding run
run-spent s [] t h m e = e
run-spent s (c ∷ calls) t h m e =
    run-spent (step s c) calls t (step-IsDict s c h) m.1 (step-spent s c t h m.0 e)

lookup-redeem_self :
    (s : TicketStore) (t : String) (now : ℕ) → lookup t (redeem s t now).1.tickets ≡ none
unfolding redeem
lookup-redeem_self s t now = ground (arith, lookup-erase t t s.tickets, ==_iff t t)

-- Once a ticket has been presented, whatever came of it, every later redemption of it fails: after
-- any further calls, unless one of them mints the same random ticket again.
pub redeem_once :
    (s : TicketStore) (t : String) (now later : ℕ) (calls : List Call)
    → IsDict s.tickets
    → All (λ c. mints t c ≡ false) calls
    → (redeem (run (redeem s t now).1 calls) t later).0 ≡ none
unfolding redeem
redeem_once s t now later calls h m = rw (
    run-spent (redeem s t now).1 calls t (step-IsDict s (redeemed t now) h) m
      (lookup-redeem_self s t now))

step-live :
    (s : TicketStore) (c : Call) (t : String) (later : ℕ)
    → IsDict s.tickets
    → names t c ≡ false
    → Before later c
    → live_at later (lookup t (step s c).tickets) ≡ live_at later (lookup t s.tickets)
unfolding issue redeem
step-live s (issued new subject pruned_at issued_at) t later h n b =
    rw lookup-insert (rw n (ground (arith, lookup-pruned pruned_at t s.tickets h)))
step-live s (redeemed ticket now) t later h n b = rw lookup-erase (rw n refl)

run-live :
    (s : TicketStore) (calls : List Call) (t : String) (later : ℕ)
    → IsDict s.tickets
    → All (λ c. names t c ≡ false) calls
    → All (Before later) calls
    → live_at later (lookup t (run s calls).tickets) ≡ live_at later (lookup t s.tickets)
unfolding run
run-live s [] t later h n b = refl
run-live s (c ∷ calls) t later h n b =
    run-live (step s c) calls t later (step-IsDict s c h) n.1 b.1 ∙ step-live s c t later h n.0 b.0

pub issued_entry :
    (s : TicketStore) (t subject : String) (pruned_at issued_at : ℕ)
    → lookup t (issue s t subject pruned_at issued_at).1.tickets ≡ some (subject, issued_at + s.ttl)
unfolding issue
issued_entry s t subject pruned_at issued_at =
    ground (
      arith,
      lookup-insert t t (subject, issued_at + s.ttl) (pruned pruned_at s.tickets),
      ==_iff t t,
    )

-- A ticket that was issued, and that no later call mints again or presents, is redeemed for the
-- subject that asked for it if the lifetime since it was issued is not over, and for nothing
-- otherwise; other tickets may be issued, pruned and redeemed meanwhile.
pub issue-redeem :
    (s : TicketStore) (t subject : String) (pruned_at issued_at later : ℕ) (calls : List Call)
    → IsDict s.tickets
    → All (λ c. names t c ≡ false) calls
    → All (Before later) calls
    → (redeem (run (issue s t subject pruned_at issued_at).1 calls) t later).0
      ≡ (if leb (issued_at + s.ttl) later then none else some subject)
unfolding redeem
issue-redeem s t subject pruned_at issued_at later calls h n b =
    let s' = (issue s t subject pruned_at issued_at).1 in
    let same =
      run-live s' calls t later (step-IsDict s (issued t subject pruned_at issued_at) h) n b in
    let found = issued_entry s t subject pruned_at issued_at in ground (arith, same, found)

-- Issuing drops exactly the tickets that had expired: every other ticket keeps its entry.
pub issue-live :
    (s : TicketStore) (t k subject : String) (pruned_at issued_at : ℕ)
    → IsDict s.tickets
    → (t == k) ≡ false
    → lookup k (issue s t subject pruned_at issued_at).1.tickets
      ≡ live_at pruned_at (lookup k s.tickets)
unfolding issue
issue-live s t k subject pruned_at issued_at h n =
    rw lookup-insert (rw n (lookup-pruned pruned_at k s.tickets h))
