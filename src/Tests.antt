-- ===== src/Tests.antt =====
-- Runs of the definitions, and the theorems at concrete inputs.
mod Base64
mod WebSocket
mod Hash
mod Array
mod Number
mod Charset
mod Text
mod Dictionary
mod Uue
mod Date
