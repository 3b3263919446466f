-- ===== src/Containers/DeviceFlag.antt =====
-- WGDEVICE_* of containers.h.
use router1_app.Prelude.{ℕ, ◌^◌}

abbrev pub replace_peers : ℕ
replace_peers = 2 ^ 0

abbrev pub has_private_key : ℕ
has_private_key = 2 ^ 1

abbrev pub has_public_key : ℕ
has_public_key = 2 ^ 2

abbrev pub has_listen_port : ℕ
has_listen_port = 2 ^ 3

abbrev pub has_fwmark : ℕ
has_fwmark = 2 ^ 4

abbrev pub has_jc : ℕ
has_jc = 2 ^ 5

abbrev pub has_jmin : ℕ
has_jmin = 2 ^ 6

abbrev pub has_jmax : ℕ
has_jmax = 2 ^ 7

abbrev pub has_s1 : ℕ
has_s1 = 2 ^ 8

abbrev pub has_s2 : ℕ
has_s2 = 2 ^ 9

abbrev pub has_h1 : ℕ
has_h1 = 2 ^ 10

abbrev pub has_h2 : ℕ
has_h2 = 2 ^ 11

abbrev pub has_h3 : ℕ
has_h3 = 2 ^ 12

abbrev pub has_h4 : ℕ
has_h4 = 2 ^ 13

abbrev pub has_s3 : ℕ
has_s3 = 2 ^ 14

abbrev pub has_s4 : ℕ
has_s4 = 2 ^ 15

abbrev pub has_i1 : ℕ
has_i1 = 2 ^ 16

abbrev pub has_i2 : ℕ
has_i2 = 2 ^ 17

abbrev pub has_i3 : ℕ
has_i3 = 2 ^ 18

abbrev pub has_i4 : ℕ
has_i4 = 2 ^ 19

abbrev pub has_i5 : ℕ
has_i5 = 2 ^ 20
