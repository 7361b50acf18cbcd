-- ===== src/Controller.antt =====
-- pkg/maroonedpods-controller: the controller of gated pods, and the election of its leader.
pub mod Gate
pub mod Leader
pub mod Tests
