-- ===== src/Realtime/Registry.antt =====
-- backend/app/realtime/connection.py: `ConnectionRegistry`. A connection is its identifier, the new
-- random one of `add`; the socket itself is left out, and so are log lines.
pub mod Capacity
use nexa_assist.Common.{
  ℕ, String, Bool, true, false, List, [], ◌∷◌, Result, ok, err, ◌>>=◌, ◌>>◌, raise_if, leb, ltb,
  length, string_key, Option,
}
use nexa_assist.Dict.{Dict, lookup, insert, erase}

abbrev pub default_max_connections : ℕ
default_max_connections = 100

pub record ConnectionRegistry : Type 0 where
  pub max : ℕ
  pub connections : Dict String (Unit {0})

pub data RegistryFault : Type 0 where
  value_error at_capacity : RegistryFault

-- `__init__`
unfoldable pub new_registry : ℕ → Result RegistryFault ConnectionRegistry
new_registry max_connections = do
  raise_if (ltb max_connections 1) value_error
  ok (record { max = max_connections; connections = [] })

unfoldable pub add : ConnectionRegistry → String → Result RegistryFault ConnectionRegistry
add r new_id = do
  raise_if (leb r.max (length r.connections)) at_capacity
  ok (record r { connections = insert new_id tt r.connections })

unfoldable pub remove : ConnectionRegistry → String → ConnectionRegistry
remove r id = record r { connections = erase id r.connections }

unfoldable pub get : ConnectionRegistry → String → Option (Unit {0})
get r id = lookup id r.connections

-- `__len__`
unfoldable pub live : ConnectionRegistry → ℕ
live r = length r.connections
