-- ===== src/Network/Repair.antt =====
-- What the verbs do to a home that is read again afterwards.
pub mod Reload
pub mod Steer
pub mod Reboot
pub mod Durable
pub mod Heal
