-- ===== src/ControlPlane.antt =====
-- The control plane, apps/control-plane: the claim spike, which is its Python part.
pub mod Claim
