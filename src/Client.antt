-- ===== src/Client.antt =====
-- The client side: the functions of src/pyads/pyads_ex.py that speak to a device through the ADS
-- library.
pub mod Request
pub mod Handles
pub mod Notifications
pub mod Sums
