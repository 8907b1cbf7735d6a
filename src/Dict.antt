-- ===== src/Dict.antt =====
-- `HashMap`, as an association list: the order of the list is the order in which the map iterates.
mod Laws
unfoldable pub use Laws.*
