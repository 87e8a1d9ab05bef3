-- ===== src/Graphql.antt =====
-- internal/engine/graphql.go: the limits on queries of GraphQL. A text that is measured is the list of its bytes; an
-- int has 64 bits.
pub mod Text
pub mod Measure
pub mod Inspect
mod Tests
