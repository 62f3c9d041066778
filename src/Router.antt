-- ===== src/Router.antt =====
-- layer3: the router. `Node` is router_node.hpp, the other children are router.cpp.
pub mod Node
pub mod Matching
pub mod Paths
pub mod Table
mod Tests
