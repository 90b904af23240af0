-- ===== src/Examples.antt =====
-- Concrete runs: each theorem of the results is applied to data on which its conditions hold.
mod World
mod Encoding
mod Transfers
mod Serving
mod Calling
mod Storing
mod Hosting
mod Sessions
mod Gatt
mod Starting
mod Wireless
mod OnAir
mod Linking
mod Controlling
mod Managing
mod Launching
mod Provisioning
mod Media
mod Tasks
mod Exchanging
mod Receiving
mod Registering
mod Buffering
mod Gathering
