-- ===== src/Pooling/Tests.antt =====
-- Runs of pkg/pooling's model on concrete inputs, and its theorems applied to them.
mod Data
mod Parts
mod Engine
