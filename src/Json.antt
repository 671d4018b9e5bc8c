-- ===== src/Json.antt =====
-- source/util/json.c and json.h: escaping of text, and reading values out of a parsed document.
-- jsmn (lib/jsmn) is third-party: `JsonDoc` is the token array that it leaves, with any tokens.
pub mod Escape
pub mod Document
