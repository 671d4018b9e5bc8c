-- ===== src/Lib.antt =====
-- sys-autopilot: an HTTP and MCP server that runs as a system module of a console. A connection's
-- request is parsed (source/core/http.c), checked against the credentials and given to a route
-- (source/core/http_router.c); a handler takes its memory from one arena (source/core/request.c), and
-- an MCP body, which may hold a whole file in base64, goes through a filter that keeps the small JSON
-- document and streams the file away (source/features/mcp/jstream.c, source/util/base64.c).
-- The files:
-- Base: names of the library passed on, lists, numbers, words, and C strings as lists of bytes.
-- Base64: source/util/base64.c. The decoder's state is the record B64Decoder; `b64dec_update` takes
--   and gives it with the bytes written, `none` standing for -1.
-- Json.Escape, Json.Document: source/util/json.c, `json_escape` and the unescaping loop of
--   `json_get_string`, and the walks over the token array. The array is what the jsmn library gives, a
--   field of the record JsonDoc.
-- Jstream: source/features/mcp/jstream.c. The record Jstream has the fields of the struct; the
--   calls of the sink are a list of its arguments, in order.
-- Http.Auth, Http.Params: the credentials and the parameters of a request in source/core/http.c.
-- Request: source/core/request.c. An operation takes and gives `mem_used`; a pointer is an offset
--   into the region.
-- Router: source/core/http_router.c. The record Server has the static tables; the hooks, the
--   handlers and the token validator are parameters, and a dispatch gives the list of what it calls.
-- Http.Body: `http_write_all` and `http_read_body` of source/core/http.c. What the socket calls return
--   is a parameter: a list of results of `send`, and a function for `recv`.
-- Http.Header, Http.Response: `http_read_request` of source/core/http.c over the chunks that `recv`
--   gives, and the senders, as the bytes that they hand to `http_write_all`.
-- Config: source/core/config.c. The file is its bytes, read in lines as `fgets` does.
-- Files: source/features/files/files.c. The record Disk has the answers of the card's calls, and the
--   calls that change it are listed.
-- Sha256: source/util/sha256.c, the portable implementation, and source/util/hex.c.
-- Log: source/core/log.c. The two files are their bytes; the clock and the printed head are given.
-- Input, Input.Keyboard: source/features/input/buttons.c, the names of the buttons, and
--   source/features/input/keyboard.c, the keys of a character. A layout is its number.
-- Mcp.Reply, Mcp.Tools, Mcp.Upload, Mcp.Server: source/features/mcp/mcp_server.c. A reply is the bytes
--   sent; `beyond` is what lies in memory behind the buffer of a reply's head. The card answers as the
--   record Card says, and the texts that the filter hands on are decoded into the temporary file.
-- Oauth.Text, Oauth.Codes, Oauth.Tokens, Oauth.Flow: source/features/oauth/oauth.c. The builders of the
--   pages, the eight slots of the authorization codes, tokens.txt with the table of digests, and the
--   endpoints. The clock, the random bytes and the time stamp of a note are parameters; a history of
--   the codes is a sequence of steps that creates, refuses and redeems them.
-- Mdns.Writer, Mdns.Record, Mdns.Query, Mdns.Response: source/core/mdns.c without its sockets. A packet
--   is its bytes. The loops over a name run on fuel: 17 times the packet's length plus one is enough for
--   the comparison, which may follow 16 pointers, and the length plus one for the skipping.
-- Numbers are natural; a cast to a narrower type is a remainder, and `size_t` sums that cannot wrap in
-- the program's sizes are plain sums. A loop over a text that does not shrink by one byte a round runs
-- on fuel, the length of the text: each round takes a byte at least.
-- Not modelled: sockets, threads and the file system, the services of the console, printing of
-- diagnostics, and the parts of the program that no file above is named for.
pub mod Base
pub mod Base64
pub mod Config
pub mod Files
pub mod Http
pub mod Input
pub mod Json
pub mod Jstream
pub mod Log
pub mod Mcp
pub mod Mdns
pub mod Oauth
pub mod Request
pub mod Router
pub mod Sha256
pub mod Tests
