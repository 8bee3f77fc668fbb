-- ===== src/Realtime/Sessions/Handshake.antt =====
-- Who is let in: the subject of a ticket that is redeemed, once.
use nexa_assist.Common.{
  ℕ, ◌+◌, String, ◌≡◌, refl, ap, ◌∙◌, inl, inr, true, false, Option, none, some, List, All, arith,
  leb, if◌then◌else◌, Option-cases, Bool-cases, string_key,
}
use nexa_assist.Dict.{IsDict}
use nexa_assist.Text.{is_nonempty}
use nexa_assist.Auth.{
  RequestIdentity, anonymous_identity, key_identity, Authenticator, accept_all, api_keys, protects,
}
use nexa_assist.Tickets.{TicketStore, redeem}
use nexa_assist.Tickets.SingleUse.{Call, run, mints, names, Before, redeem_once, issue-redeem}
use nexa_assist.Realtime.Sessions.{issue_ticket, identity_of, authenticate_socket}

-- A protected deployment lets a socket in only as the subject for whom its ticket was redeemed; an
-- open one lets everybody in as anonymous and leaves the tickets alone.
pub authenticate_socket-redeemed :
    (authenticator : Authenticator) (ticket : Option String) (tickets : TicketStore) (now : ℕ)
    (identity : RequestIdentity)
    → (authenticate_socket ticket authenticator tickets now).0 ≡ some identity
    → (protects authenticator ≡ true
        → (t : String) × (ticket ≡ some t)
          × ((redeem tickets t now).0 ≡ some identity.subject)
          × (identity ≡ key_identity identity.subject))
      × (protects authenticator ≡ false
          → (identity ≡ anonymous_identity)
            × ((authenticate_socket ticket authenticator tickets now).1 ≡ tickets))
unfolding authenticate_socket protects
authenticate_socket-redeemed accept_all ticket tickets now identity h =
    (λ p. absurd (ground arith), λ p. (ground arith, refl))
authenticate_socket-redeemed (api_keys credentials) none tickets now identity h =
    absurd (ground arith)
authenticate_socket-redeemed (api_keys credentials) (some t) tickets now identity h =
    (λ p. (t, refl, taken.0, taken.1), λ p. absurd (ground arith))
  where
    taken :
        ((redeem tickets t now).0 ≡ some identity.subject)
        × (identity ≡ key_identity identity.subject)
    taken = elim (Bool-cases (is_nonempty t)) [
      | inr blank ↦ absurd (ground arith)
      | inl some_text ↦ elim (Option-cases (redeem tickets t now).0) [
        | inl unknown ↦ absurd (ground arith)
        | inr (subject, known) ↦
            let same : identity ≡ key_identity subject = ground arith in
            (rw (same) known, rw (same) refl)
      ]
    ]

-- A ticket that has been presented at a protected handshake is never accepted again, unless it is
-- minted once more.
pub authenticate_socket_once :
    (authenticator : Authenticator) (t : String) (tickets : TicketStore) (now later : ℕ)
    (calls : List Call)
    → protects authenticator ≡ true
    → IsDict tickets.tickets
    → All (λ c. mints t c ≡ false) calls
    → (authenticate_socket
        (some t)
        authenticator
        (run (authenticate_socket (some t) authenticator tickets now).1 calls)
        later).0
      ≡ none
unfolding authenticate_socket
authenticate_socket_once authenticator t tickets now later calls p h m =
    elim (Bool-cases (is_nonempty t)) [
      | inr blank ↦ rw (p) (rw (blank) refl)
      | inl some_text ↦
          rw (p) (rw (some_text) (ap identity_of (redeem_once tickets t now later calls h m)))
    ]

-- A ticket that a subject mints over HTTP lets that subject in, until its lifetime is over, if nobody
-- presents or mints it meanwhile.
pub issue_ticket-authenticate_socket :
    (authenticator : Authenticator) (identity : RequestIdentity) (t : String)
    (tickets : TicketStore) (pruned_at issued_at later : ℕ) (calls : List Call)
    → protects authenticator ≡ true
    → is_nonempty t ≡ true
    → IsDict tickets.tickets
    → All (λ c. names t c ≡ false) calls
    → All (Before later) calls
    → (authenticate_socket
        (some t)
        authenticator
        (run (issue_ticket tickets identity t pruned_at issued_at).1 calls)
        later).0
      ≡ (if leb (issued_at + tickets.ttl) later then none else some (key_identity identity.subject))
unfolding authenticate_socket issue_ticket
issue_ticket-authenticate_socket authenticator identity t tickets pruned_at issued_at later calls p
      n h u b =
    rw (p) (
      rw (n) (
        ap identity_of
          (issue-redeem tickets t identity.subject pruned_at issued_at later calls h u b)
        ∙ ground arith))
