-- ===== src/Tensor.antt =====
-- The headers of tensors, src/common/tp_tensor.c. Header has the checks; Layout, Fill and Distinct
-- show that an accepted header gives every element its own place.
mod Tests
pub mod Header
pub mod Layout
pub mod Reverse
pub mod Strides
pub mod Places
