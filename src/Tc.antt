-- ===== src/Tc.antt =====
-- TC: the concentrator.
pub mod Bitmap
pub mod Pool
pub mod Netlink
pub mod Options
pub mod Pcp
pub mod Fragments
pub mod Bplus
pub mod Tunnels
pub mod Encapsulate
pub mod Users
pub mod Mss
