-- ===== src/Http.antt =====
-- source/core/http.c and http.h: the parts of the HTTP layer, a module each.
pub mod Auth
pub mod Body
pub mod Header
pub mod Response
pub mod Params
