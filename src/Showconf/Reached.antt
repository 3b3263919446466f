-- ===== src/Showconf/Reached.antt =====
-- The lines Jc to H4 reach their branches of process_line.
use router1_app.Containers.DeviceFlag
use router1_app.Config.Line.{device_branches, add_flag}
use router1_app.Libc.{strcasecmp_eq, strncasecmp_eq}
use router1_app.Config.Read.{is_special}
use router1_app.Ctype.{char_is_space}
use router1_app.Config.Host.{Host}
use router1_app.Prelude.{codes, Bytes, refl}
use router1_app.Containers.{Device}
use router1_app.Showconf.Settings.{stores_number, stores_text, Reaches}

pub Reaches-jc :
    (h : Host) (value : Bytes) (t : Device)
    → Reaches h t
        (codes "Jc")
        (stores_number (λ n. add_flag (record t { junk_packet_count = n }) DeviceFlag.has_jc))
        value
unfolding device_branches strncasecmp_eq strcasecmp_eq is_special char_is_space
Reaches-jc h value t = record {
  place = 3;
  branches = refl;
  missed = refl;
  ordinary = refl;
  plain = refl;
  no_interface = refl;
  no_peer = refl;
}

pub Reaches-jmin :
    (h : Host) (value : Bytes) (t : Device)
    → Reaches h t
        (codes "Jmin")
        (stores_number (λ n. add_flag (record t { junk_packet_min_size = n }) DeviceFlag.has_jmin))
        value
unfolding device_branches strncasecmp_eq strcasecmp_eq is_special char_is_space
Reaches-jmin h value t = record {
  place = 4;
  branches = refl;
  missed = refl;
  ordinary = refl;
  plain = refl;
  no_interface = refl;
  no_peer = refl;
}

pub Reaches-jmax :
    (h : Host) (value : Bytes) (t : Device)
    → Reaches h t
        (codes "Jmax")
        (stores_number (λ n. add_flag (record t { junk_packet_max_size = n }) DeviceFlag.has_jmax))
        value
unfolding device_branches strncasecmp_eq strcasecmp_eq is_special char_is_space
Reaches-jmax h value t = record {
  place = 5;
  branches = refl;
  missed = refl;
  ordinary = refl;
  plain = refl;
  no_interface = refl;
  no_peer = refl;
}

pub Reaches-s1 :
    (h : Host) (value : Bytes) (t : Device)
    → Reaches h t
        (codes "S1")
        (stores_number (λ n. add_flag (record t { init_packet_junk_size = n }) DeviceFlag.has_s1))
        value
unfolding device_branches strncasecmp_eq strcasecmp_eq is_special char_is_space
Reaches-s1 h value t = record {
  place = 6;
  branches = refl;
  missed = refl;
  ordinary = refl;
  plain = refl;
  no_interface = refl;
  no_peer = refl;
}

pub Reaches-s2 :
    (h : Host) (value : Bytes) (t : Device)
    → Reaches h t
        (codes "S2")
        (stores_number
          (λ n. add_flag (record t { response_packet_junk_size = n }) DeviceFlag.has_s2))
        value
unfolding device_branches strncasecmp_eq strcasecmp_eq is_special char_is_space
Reaches-s2 h value t = record {
  place = 7;
  branches = refl;
  missed = refl;
  ordinary = refl;
  plain = refl;
  no_interface = refl;
  no_peer = refl;
}

pub Reaches-s3 :
    (h : Host) (value : Bytes) (t : Device)
    → Reaches h t
        (codes "S3")
        (stores_number
          (λ n. add_flag (record t { cookie_reply_packet_junk_size = n }) DeviceFlag.has_s3))
        value
unfolding device_branches strncasecmp_eq strcasecmp_eq is_special char_is_space
Reaches-s3 h value t = record {
  place = 8;
  branches = refl;
  missed = refl;
  ordinary = refl;
  plain = refl;
  no_interface = refl;
  no_peer = refl;
}

pub Reaches-s4 :
    (h : Host) (value : Bytes) (t : Device)
    → Reaches h t
        (codes "S4")
        (stores_number
          (λ n. add_flag (record t { transport_packet_junk_size = n }) DeviceFlag.has_s4))
        value
unfolding device_branches strncasecmp_eq strcasecmp_eq is_special char_is_space
Reaches-s4 h value t = record {
  place = 9;
  branches = refl;
  missed = refl;
  ordinary = refl;
  plain = refl;
  no_interface = refl;
  no_peer = refl;
}

pub Reaches-h1 :
    (h : Host) (value : Bytes) (t : Device)
    → Reaches h t
        (codes "H1")
        (stores_text (λ o. add_flag (record t { init_packet_magic_header = o }) DeviceFlag.has_h1))
        value
unfolding device_branches strncasecmp_eq strcasecmp_eq is_special char_is_space
Reaches-h1 h value t = record {
  place = 10;
  branches = refl;
  missed = refl;
  ordinary = refl;
  plain = refl;
  no_interface = refl;
  no_peer = refl;
}

pub Reaches-h2 :
    (h : Host) (value : Bytes) (t : Device)
    → Reaches h t
        (codes "H2")
        (stores_text
          (λ o. add_flag (record t { response_packet_magic_header = o }) DeviceFlag.has_h2))
        value
unfolding device_branches strncasecmp_eq strcasecmp_eq is_special char_is_space
Reaches-h2 h value t = record {
  place = 11;
  branches = refl;
  missed = refl;
  ordinary = refl;
  plain = refl;
  no_interface = refl;
  no_peer = refl;
}

pub Reaches-h3 :
    (h : Host) (value : Bytes) (t : Device)
    → Reaches h t
        (codes "H3")
        (stores_text
          (λ o. add_flag (record t { underload_packet_magic_header = o }) DeviceFlag.has_h3))
        value
unfolding device_branches strncasecmp_eq strcasecmp_eq is_special char_is_space
Reaches-h3 h value t = record {
  place = 12;
  branches = refl;
  missed = refl;
  ordinary = refl;
  plain = refl;
  no_interface = refl;
  no_peer = refl;
}

pub Reaches-h4 :
    (h : Host) (value : Bytes) (t : Device)
    → Reaches h t
        (codes "H4")
        (stores_text
          (λ o. add_flag (record t { transport_packet_magic_header = o }) DeviceFlag.has_h4))
        value
unfolding device_branches strncasecmp_eq strcasecmp_eq is_special char_is_space
Reaches-h4 h value t = record {
  place = 13;
  branches = refl;
  missed = refl;
  ordinary = refl;
  plain = refl;
  no_interface = refl;
  no_peer = refl;
}
