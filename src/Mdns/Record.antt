-- ===== src/Mdns/Record.antt =====
-- The advertised parameters and the TXT record of source/core/mdns.c, and the emitters of its records.
-- What `device_info_get`, `app_version` and the network interface give are parameters.
use sys_autopilot.Base.{
  ℕ, ◌+◌, ◌*◌, ◌^◌, ◌%◌, bit_or, Bool, true, false, not, ◌&&◌, ◌||◌, Option, none, some, List, [],
  ◌∷◌, ◌++◌, length, get_or, ltb, leb, ◌==◌, if◌then◌else◌,
}
use sys_autopilot.Base.Text.{Bytes, codes, starts_with}
use sys_autopilot.Config.{Config, cut, config_hostname}
use sys_autopilot.Mdns.Writer.{Writer, w_u8, w_u16, w_u32, w_bytes, w_name, w_rr_head, w_rr_patch}

abbrev pub service_type : Bytes
service_type = codes "_sys-autopilot._tcp.local"

abbrev pub max_extra_txt : ℕ
max_extra_txt = 4

-- The result and g_extra_txt.
unfoldable pub mdns_add_txt : List Bytes → Bytes → Bool × List Bytes
mdns_add_txt extra pair =
    if leb max_extra_txt (length extra) then (false, extra) else (true, extra ++ (pair ∷ []))

unfoldable pub extra_txt_has_key : List Bytes → Bytes → Bool
extra_txt_has_key [] key = false
extra_txt_has_key (pair ∷ extra) key =
    (starts_with pair key && get_or pair (length key) 0 == b'=') || extra_txt_has_key extra key

unfoldable pub auth_kind : Config → Bytes
auth_kind cfg =
    if not (length cfg.username == 0) && not (length cfg.password == 0)
    then codes "basic"
    else if not (length cfg.token == 0)
    then codes "token"
    else codes "none"

-- The TXT rdata, and whether it is full.
unfoldable pub txt_add : Bytes × Bool → Bytes → Bytes × Bool
txt_add (txt, full) entry =
    if full || length entry == 0 || ltb 255 (length entry)
    then (txt, full)
    else if ltb 256 (length txt + 1 + length entry)
    then (txt, true)
    else (txt ++ (length entry ∷ entry), full)

unfoldable pub txt_add_all : Bytes × Bool → List Bytes → Bytes × Bool
txt_add_all t [] = t
txt_add_all t (pair ∷ extra) = txt_add_all (txt_add t pair) extra

pub record DeviceInfo : Type 0 where
  pub serial : Bytes
  pub model : Bytes
  pub firmware : Bytes
  pub atmosphere : Bytes

pub record MdnsConfig : Type 0 where
  pub instance_name : Bytes
  pub host : Bytes
  pub fqdn : Bytes
  pub port : ℕ
  pub ipv4 : ℕ
  pub txt : Bytes

-- An entry that is there only for a value that is not empty.
unfoldable pub txt_add_some : Bytes × Bool → Bytes → Bytes → Bytes × Bool
txt_add_some t key value = if length value == 0 then t else txt_add t (key ++ value)

unfoldable pub fill_txt : Config → DeviceInfo → Bytes → List Bytes → Bytes × Bool
fill_txt cfg di version extra =
    let pairs = txt_add_all (txt_add ([], false) (codes "version=" ++ version)) extra in
    let with_auth =
      (if extra_txt_has_key extra (codes "auth")
        then pairs
        else txt_add pairs (codes "auth=" ++ auth_kind cfg)) in
    let with_model = txt_add with_auth (codes "model=" ++ di.model) in
    txt_add_some (txt_add_some with_model (codes "firmware=") di.firmware) (codes "atmosphere=")
      di.atmosphere

unfoldable pub mdns_fill_common : Config → DeviceInfo → Bytes → List Bytes → MdnsConfig
mdns_fill_common cfg di version extra =
    let name = config_hostname cfg di.serial 64 in
    record {
      instance_name = cut 64 name;
      host = cut 80 (name ++ codes ".local");
      fqdn = cut 128 (cut 64 name ++ (b'.' ∷ service_type));
      port = cfg.port % 2 ^ 16;
      ipv4 = 0;
      txt = (fill_txt cfg di version extra).0;
    }

-- The octets of the address, where there is one.
unfoldable pub mdns_config_init :
    Config → DeviceInfo → Bytes → List Bytes → Option (ℕ × ℕ × ℕ × ℕ) → Bool × MdnsConfig
mdns_config_init cfg di version extra none = (false, mdns_fill_common cfg di version extra)
mdns_config_init cfg di version extra (some (a, b, c, d)) = (
  true,
  record (mdns_fill_common cfg di version extra) {
    ipv4 = bit_or (bit_or (bit_or (a * 2 ^ 24) (b * 2 ^ 16)) (c * 2 ^ 8)) d;
  },
)

-- DNS_CLASS_IN | DNS_CLASS_FLUSH
abbrev class_flush : ℕ
class_flush = 0x8001

unfoldable pub emit_a : Writer → MdnsConfig → Writer
emit_a w cfg =
    let (head, offset) = w_rr_head w cfg.host 1 class_flush 120 in
    w_rr_patch (w_u32 head cfg.ipv4) offset

unfoldable pub emit_nsec : Writer → MdnsConfig → Writer
emit_nsec w cfg =
    let (head, offset) = w_rr_head w cfg.host 47 class_flush 120 in
    w_rr_patch (w_u8 (w_u8 (w_u8 (w_name head cfg.host) 0) 1) 0x40) offset

unfoldable pub emit_ptr : Writer → MdnsConfig → Writer
emit_ptr w cfg =
    let (head, offset) = w_rr_head w service_type 12 1 4500 in
    w_rr_patch (w_name head cfg.fqdn) offset

unfoldable pub emit_srv : Writer → MdnsConfig → Writer
emit_srv w cfg =
    let (head, offset) = w_rr_head w cfg.fqdn 33 class_flush 120 in
    w_rr_patch (w_name (w_u16 (w_u16 (w_u16 head 0) 0) cfg.port) cfg.host) offset

unfoldable pub emit_txt : Writer → MdnsConfig → Writer
emit_txt w cfg =
    let (head, offset) = w_rr_head w cfg.fqdn 16 class_flush 4500 in
    w_rr_patch (if ltb 0 (length cfg.txt) then w_bytes head cfg.txt else w_u8 head 0) offset
