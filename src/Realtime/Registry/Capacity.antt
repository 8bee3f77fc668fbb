-- ===== src/Realtime/Registry/Capacity.antt =====
-- The ceiling holds whatever connections come and go, and every connection gives its place back.
use nexa_assist.Common.{
  ℕ, ◌≤◌, String, ◌≡◌, refl, ◌∙◌, none, [], ◌∷◌, ok, err, arith, string_key, ==_iff,
}
use nexa_assist.Dict.{
  Dict, lookup, insert, erase, IsDict, insert-IsDict, erase-IsDict, length-insert, length-erase-le,
}
use nexa_assist.Realtime.Registry.{
  ConnectionRegistry, RegistryFault, new_registry, add, remove, live,
}

abbrev pub InBounds : ConnectionRegistry → Type 0
InBounds r = IsDict r.connections × (live r ≤ r.max)

-- Connections that come, those refused included, and go, one that has gone before included.
pub data Change : ConnectionRegistry → ConnectionRegistry → Type 0 where
  came : (r r' : ConnectionRegistry) (new_id : String) → add r new_id ≡ ok r' → Change r r'
  refused :
      (r : ConnectionRegistry) (new_id : String) (e : RegistryFault)
      → add r new_id ≡ err e
      → Change r r
  went : (r : ConnectionRegistry) (id : String) → Change r (remove r id)

pub data Changes : ConnectionRegistry → ConnectionRegistry → Type 0 where
  here : (r : ConnectionRegistry) → Changes r r
  next : (r s t : ConnectionRegistry) → Changes r s → Change s t → Changes r t

add-InBounds :
    (r r' : ConnectionRegistry) (new_id : String)
    → add r new_id ≡ ok r'
    → InBounds r
    → InBounds r' × (r'.max ≡ r.max)
unfolding add live
add-InBounds r r' new_id h b =
    let kept = insert-IsDict new_id tt r.connections b.0 in
    ground (arith, kept, length-insert new_id tt r.connections)

Change-InBounds :
    (r s : ConnectionRegistry) → Change r s → InBounds r → InBounds s × (s.max ≡ r.max)
unfolding remove live
Change-InBounds _ _ (came r s new_id h) b = add-InBounds r s new_id h b
Change-InBounds _ _ (refused r new_id e h) b = (b, refl)
Change-InBounds _ _ (went r id) b = (
  (erase-IsDict id r.connections b.0, omega (arith, length-erase-le id r.connections, b.1)),
  refl,
)

Changes-InBounds :
    (r s : ConnectionRegistry) → Changes r s → InBounds r → InBounds s × (s.max ≡ r.max)
Changes-InBounds _ _ (here r) b = (b, refl)
Changes-InBounds _ _ (next r s t before change) b =
    let so_far = Changes-InBounds r s before b in
    let now = Change-InBounds s t change so_far.0 in (now.0, now.1 ∙ so_far.1)

-- A new registry has a ceiling of at least one, and holds at most that many connections after any
-- connections have come, been refused and gone.
pub Changes-live :
    (max_connections : ℕ) (r s : ConnectionRegistry)
    → new_registry max_connections ≡ ok r
    → Changes r s
    → (1 ≤ max_connections) × (live s ≤ max_connections)
unfolding new_registry live
Changes-live max_connections r s h changes =
    let fresh : InBounds r = ground arith in
    let kept = Changes-InBounds r s changes fresh in
    let same : r.max ≡ max_connections = ground arith in
    let bound : live s ≤ s.max = kept.0.1 in (ground arith, omega (arith, bound, kept.1, same))

erase-insert :
    (k : String) (d : Dict String (Unit {0})) → lookup k d ≡ none → erase k (insert k tt d) ≡ d
unfolding lookup insert erase
erase-insert k [] h = ground (arith, ==_iff k k)
erase-insert k ((j, v) ∷ d) h = ground (arith, ==_iff j k, ==_iff k k, erase-insert k d)

-- A connection that goes leaves the registry as it was before it came.
pub remove-add :
    (r r' : ConnectionRegistry) (new_id : String)
    → add r new_id ≡ ok r'
    → lookup new_id r.connections ≡ none
    → remove r' new_id ≡ r
unfolding add remove
remove-add r r' new_id h free = ground (arith, erase-insert new_id r.connections free)
