-- ===== src/Map.antt =====
-- The hash tables of the program (std::unordered_map, std::unordered_set with their hash and
-- equality): an association list over the keys' equality test. The order of entries is that of
-- insertion; the program's tables have none that it could rely on.
mod Defs
mod Laws
pub use Defs.{Key, id_key, string_key, Map, Set, contains, emplace, keys}
unfoldable pub use Defs.{lookup, insert, erase}
pub use Laws.*
