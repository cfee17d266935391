-- ===== src/Seri.antt =====
-- skynet-1.2.0/lualib-src/lua-seri.c: Lua values as bytes.
pub mod Block
pub mod Value
pub mod Pack
pub mod Unpack
pub mod Emit
pub mod Appends
pub mod Packed
pub mod Words
pub mod RoundTrip
pub mod Steps
pub mod Inverse
pub mod Total
mod Examples
