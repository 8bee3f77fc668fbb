-- ===== src/Tickets.antt =====
-- backend/app/auth/tickets.py: `InMemoryTicketStore`. The clock's readings and the new random ticket
-- (`secrets`, not part of the program) are arguments; time is a number of ticks, in which the
-- lifetime is given too.
pub mod SingleUse
pub mod Redis
mod Tests
use nexa_assist.Common.{
  ℕ, ◌+◌, String, Bool, true, false, Option, none, some, List, [], ◌∷◌, leb, if◌then◌else◌,
  string_key, length,
}
use nexa_assist.Dict.{Dict, lookup, insert, erase}

abbrev pub default_ttl_seconds : ℕ
default_ttl_seconds = 60

pub record TicketStore : Type 0 where
  pub ttl : ℕ
  pub tickets : Dict String (String × ℕ)

-- `_prune`, over the entries
unfoldable pub pruned : ℕ → Dict String (String × ℕ) → Dict String (String × ℕ)
pruned now [] = []
pruned now ((ticket, (subject, expires_at)) ∷ entries) =
    let rest = pruned now entries in
    if leb expires_at now then rest else (ticket, (subject, expires_at)) ∷ rest

-- `new` is what `new_ticket()` returns; the clock is read in `_prune` and again for the expiry.
unfoldable pub issue : TicketStore → String → String → ℕ → ℕ → String × TicketStore
issue s new subject pruned_at issued_at = (
  new,
  record s { tickets = insert new (subject, issued_at + s.ttl) (pruned pruned_at s.tickets) },
)

-- the subject of a popped entry, unless it has expired
abbrev pub subject_at : ℕ → Option (String × ℕ) → Option String
subject_at now none = none
subject_at now (some (subject, expires_at)) = if leb expires_at now then none else some subject

unfoldable pub redeem : TicketStore → String → ℕ → Option String × TicketStore
redeem s ticket now =
    (subject_at now (lookup ticket s.tickets), record s { tickets = erase ticket s.tickets })

-- `__len__`
unfoldable pub size : TicketStore → ℕ
size s = length s.tickets
