-- ===== src/Context/Tests.antt =====
-- Tests of the context window, and its theorems at a concrete history.
use nexa_assist.Common.{ℕ, ◌≤◌, ◌<◌, ◌≡◌, refl, Bool, List, [], ◌∷◌, arith, sum_map, nat_eq}
use nexa_assist.Names.{codes}
use nexa_assist.Context.{ConversationMessage, customer, estimate_tokens, truncate, select, build}
use nexa_assist.Context.Budget.{truncate_exceeds, build_fits}

abbrev blank : ℕ → Bool
blank c = nat_eq c 32

abbrev turn : List ℕ → ℕ → ConversationMessage
turn content tokens = record { role = customer; content = content; token_estimate = tokens }

abbrev history : List ConversationMessage
history =
    turn (codes "Where is my order?") 5 ∷ turn (codes "It is late") 3 ∷ turn (codes "Please") 2 ∷ []

last_two : (build blank 6 history).dropped ≡ 1
unfolding build select
last_two = refl

truncate_exceeds_example : 2 < estimate_tokens (truncate blank (b'W' ∷ codes "here?") 2)
truncate_exceeds_example =
    truncate_exceeds blank (codes "here?") 2 b'W' (omega arith) refl (omega arith)

build_fits_example :
    let c = build blank 6 history in
    (sum_map (λ m. estimate_tokens m.content) c.messages ≤ 6)
    × (c.total_tokens ≡ sum_map (λ m. m.tokens) c.messages)
    × (c.total_tokens ≤ 6)
unfolding estimate_tokens
build_fits_example = build_fits blank 6 history (omega arith) (refl, (refl, (refl, tt)))
