-- ===== src/Containers/PeerFlag.antt =====
-- WGPEER_* of containers.h.
use router1_app.Prelude.{ℕ, ◌^◌}

abbrev pub remove_me : ℕ
remove_me = 2 ^ 0

abbrev pub replace_allowedips : ℕ
replace_allowedips = 2 ^ 1

abbrev pub has_public_key : ℕ
has_public_key = 2 ^ 2

abbrev pub has_preshared_key : ℕ
has_preshared_key = 2 ^ 3

abbrev pub has_persistent_keepalive_interval : ℕ
has_persistent_keepalive_interval = 2 ^ 4

abbrev pub has_awg : ℕ
has_awg = 2 ^ 5
