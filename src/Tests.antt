-- ===== src/Tests.antt =====
-- Runs of the models on concrete inputs, and the theorems at such inputs.
mod Codec
mod Filter
mod Keyboard
mod Server
mod Store
mod Mcp
mod Mdns
mod Oauth
