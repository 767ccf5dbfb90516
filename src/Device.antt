-- ===== src/Device.antt =====
-- crates/example/src/device/net: the network devices.
pub mod AxiNet
pub mod Mmio
pub mod VirtioNet
