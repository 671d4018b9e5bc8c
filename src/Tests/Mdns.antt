-- ===== src/Tests/Mdns.antt =====
-- Runs and instances for Mdns.
use sys_autopilot.Base.{false, ◌≤◌, ◌≡◌, refl, Bool, true, some, List, [], ◌∷◌, ◌++◌, length, arith}
use sys_autopilot.Base.Text.{Bytes, codes}
use sys_autopilot.Config.{default_config, config_hostname, append_sanitized}
use sys_autopilot.Mdns.Writer.{
  w_u8, w_u16, w_u32, w_bytes, w_name, w_rr_head, poke, w_rr_patch, name_segments, split_dot,
}
use sys_autopilot.Mdns.Record.{
  DeviceInfo, MdnsConfig, mdns_config_init, mdns_fill_common, fill_txt, txt_add, txt_add_all,
  txt_add_some, extra_txt_has_key, auth_kind, emit_a, emit_nsec, emit_ptr, emit_srv, emit_txt,
}
use sys_autopilot.Mdns.Query.{
  WantSet, name_equals, name_loop, skip_name, skip_loop, next_segment, match_label, skip_dot,
  pointer, scan_questions, question_loop, question, is_name, read_u16,
}
use sys_autopilot.Mdns.Query.Loops.{name_equals-Ends}
use sys_autopilot.Mdns.Query.Names.{dotted, encoded, name_equals-encoded}
use sys_autopilot.Mdns.Response.{
  mdns_build_response, mdns_build_announcement, response, announcement, bundled, ancount,
  write_answers, finished, w_response_header,
}
use sys_autopilot.Mdns.Response.Bounds.{mdns_build_response-Fits}

abbrev some_device : DeviceInfo
some_device = record {
  serial = codes "XAW10074213";
  model = codes "oled";
  firmware = codes "17.0.0";
  atmosphere = [];
}

advertised :
    (mdns_config_init default_config some_device
      (codes "1.2")
      (codes "path=/mcp" ∷ [])
      (some (192, 168, 1, 7))).1
    ≡ record {
      instance_name = codes "switch-4213";
      host = codes "switch-4213.local";
      fqdn = codes "switch-4213._sys-autopilot._tcp.local";
      port = 4150;
      ipv4 = 3232235783;
      txt =
          (11 ∷ codes "version=1.2")
          ++ (9 ∷ codes "path=/mcp")
          ++ (9 ∷ codes "auth=none")
          ++ (10 ∷ codes "model=oled")
          ++ (15 ∷ codes "firmware=17.0.0");
    }
unfolding mdns_config_init mdns_fill_common fill_txt txt_add txt_add_all txt_add_some
    extra_txt_has_key auth_kind default_config config_hostname append_sanitized
advertised = refl

abbrev console : MdnsConfig
console = record {
  instance_name = codes "sw";
  host = codes "sw.local";
  fqdn = codes "sw._sys-autopilot._tcp.local";
  port = 4150;
  ipv4 = 3232235783;
  txt = [];
}

-- A question for the address of SW.local, with a unicast reply asked for.
abbrev address_query : Bytes
address_query =
    (0 ∷ 0 ∷ 0 ∷ 0 ∷ 0 ∷ 1 ∷ 0 ∷ 0 ∷ 0 ∷ 0 ∷ 0 ∷ 0 ∷ [])
    ++ (2 ∷ codes "SW")
    ++ (5 ∷ codes "local")
    ++ (0 ∷ 0 ∷ 1 ∷ 0x80 ∷ 1 ∷ [])

-- The address and the record that there is no other type: 12 bytes, 24 and 33.
address_reply :
    (length (mdns_build_response console address_query 1500).0 ≡ 69)
    × ((mdns_build_response console address_query 1500).1 ≡ true)
unfolding mdns_build_response bundled ancount write_answers finished w_response_header
    scan_questions question_loop question is_name read_u16 name_equals name_loop skip_name skip_loop
    next_segment match_label skip_dot pointer emit_a emit_nsec emit_ptr emit_srv emit_txt w_u8 w_u16
    w_u32 w_bytes w_name w_rr_head poke response w_rr_patch name_segments split_dot
address_reply = (refl, refl)

-- A compression pointer to itself.
name_equals-Ends_example :
    (answer : Bool) × (name_equals (0xC0 ∷ 0 ∷ []) 0 (codes "sw.local") ≡ some answer)
name_equals-Ends_example = name_equals-Ends (0xC0 ∷ 0 ∷ []) 0 (codes "sw.local")

abbrev some_labels : List Bytes
some_labels = codes "sw" ∷ codes "local" ∷ []

name_equals-encoded_example :
    (name_equals ((7 ∷ []) ++ (encoded some_labels ++ (0 ∷ 1 ∷ []))) 1 (dotted some_labels)
      ≡ some true)
    × (skip_name ((7 ∷ []) ++ (encoded some_labels ++ (0 ∷ 1 ∷ []))) 1 ≡ some 11)
name_equals-encoded_example = name_equals-encoded some_labels (7 ∷ []) (0 ∷ 1 ∷ []) (omega arith)

abbrev all_wanted : WantSet
all_wanted = record {
  want_a = true;
  want_ptr = true;
  want_srv = true;
  want_txt = true;
  unicast = false;
}

mdns_build_response-Fits_example :
    (length (response console all_wanted 40).buf ≤ 40)
    × (length (announcement console 40).buf ≤ 40)
    × (length (mdns_build_response console address_query 40).0 ≤ 40)
    × (length (mdns_build_announcement console 40) ≤ 40)
mdns_build_response-Fits_example = mdns_build_response-Fits console address_query all_wanted 40
