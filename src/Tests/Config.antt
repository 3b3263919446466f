-- ===== src/Tests/Config.antt =====
-- The readers of config.c at concrete inputs.
use router1_app.Prelude.{
  ℕ, zero, suc, ◌-◌, ◌/◌, ◌%◌, ◌^◌, ◌<◌, ◌≡◌, refl, inl, true, false, [], ◌∷◌, ◌++◌, arith, ltb,
  ◌==◌, if◌then◌else◌, codes, Ensures, ok, exit, get_or, All,
}
use router1_app.Ctype.{char_is_space}
use router1_app.Containers.{zero_device}
use router1_app.Containers.Valid.{IsPeer, zero_device-IsDevice, IsAllowedIp}
use router1_app.Config.Values.{parse_uint16}
use router1_app.Config.Values.Numbers.{parse_uint16-decimal, parse_uint16-print_u}
use router1_app.Config.Endpoint.{HostPort, resolve, resolve_forever, split_endpoint}
use router1_app.Config.Endpoint.Retries.{
  IsBounded, IsReturned, resolve-IsBounded, resolve_forever-IsReturned,
}
use router1_app.Config.Endpoint.Laws.{split_endpoint_bracketed, split_endpoint_plain}
use router1_app.Config.Address.{validate_netmask, parse_allowedips}
use router1_app.Config.Address.Netmask.{number_of, validate_netmask_lem}
use router1_app.Config.Address.Laws.{parse_allowedips-Ensures}
use router1_app.Config.Line.{Ctx, process_line}
use router1_app.Config.Line.Peers.{IsCtx, process_line-Ensures}
use router1_app.Config.Clean.{clean_special_handshake_line}
use router1_app.Config.Clean.Laws.{clean_special_handshake_line_lem}
use router1_app.Config.Read.{
  cleaned_line, config_read_line, config_read_init, strip_spaces, is_special,
}
use router1_app.Config.Read.Lines.{cleaned_line-comment, config_read_line-comment}
use router1_app.Libc.Numbers.{decimal}
use router1_app.Uapi.Print.{print_u}
use router1_app.Tests.Setup.{test_peer-IsPeer, slow_host, slow_host-IsHost, test_peer, test_ip}

abbrev home : HostPort
home = record { host = codes "vpn.example"; port = codes "51820" }

resolve-IsBounded_example : IsBounded 3 (resolve slow_host home 0 3 1000000)
resolve-IsBounded_example = resolve-IsBounded slow_host home 3 0 1000000 (omega arith)

resolve_forever-IsReturned_example : IsReturned (resolve_forever slow_host home 0 5 1000000).answer
resolve_forever-IsReturned_example =
    resolve_forever-IsReturned slow_host home 5 0 2 1000000 (omega arith) tt

split_endpoint_bracketed_example :
    split_endpoint (codes "[fd00::1]:51820")
    ≡ ok (record { host = codes "fd00::1"; port = codes "51820" })
split_endpoint_bracketed_example =
    split_endpoint_bracketed (codes "fd00::1") (codes "51820") refl (λ e. cc)

plain_endpoint_read :
    split_endpoint (codes "vpn.example:51820")
    ≡ ok (record { host = codes "vpn.example"; port = codes "51820" })
plain_endpoint_read =
    split_endpoint_plain b'v' (codes "pn.example") (codes "51820") refl refl (λ e. cc)

test_ip-bytes : (i : ℕ) → get_or test_ip.ip i 0 < 256
test_ip-bytes zero = omega arith
test_ip-bytes (suc zero) = omega arith
test_ip-bytes (suc (suc zero)) = omega arith
test_ip-bytes (suc (suc (suc zero))) = omega arith
test_ip-bytes (suc (suc (suc (suc i)))) = omega arith

test_ip-IsAllowedIp : IsAllowedIp test_ip
test_ip-IsAllowedIp = record { known = inl refl; size = refl; prefix = omega arith }

validate_netmask_lem_example :
    validate_netmask test_ip ≡ (number_of test_ip.ip (32 / 32) % 2 ^ (32 - 8) == 0)
validate_netmask_lem_example = validate_netmask_lem test_ip test_ip-IsAllowedIp test_ip-bytes

parse_allowedips-Ensures_example :
    Ensures IsPeer (parse_allowedips slow_host (codes "10.0.0.1/32,fd00::1/64") test_peer)
parse_allowedips-Ensures_example =
    parse_allowedips-Ensures slow_host (codes "10.0.0.1/32,fd00::1/64") test_peer slow_host-IsHost
      test_peer-IsPeer

parse_uint16-decimal_example : parse_uint16 (codes "4294967301") ≡ (
    if ltb (decimal 0 (codes "4294967301") % 2 ^ 32) (2 ^ 16)
    then ok (decimal 0 (codes "4294967301") % 2 ^ 32)
    else exit)
parse_uint16-decimal_example =
    parse_uint16-decimal (codes "4294967301") refl (λ e. cc) (omega arith)

printed_number_read : parse_uint16 (print_u 1280) ≡ ok 1280
printed_number_read = parse_uint16-print_u 1280 (omega arith)

abbrev start : Ctx
start = config_read_init false

abbrev peer_ctx : Ctx
peer_ctx = record {
  device = record zero_device { peers = test_peer ∷ [] };
  is_peer_section = true;
  is_device_section = false;
}

peer_ctx-IsCtx : IsCtx peer_ctx
peer_ctx-IsCtx =
    let z = zero_device-IsDevice in
    let peers : All IsPeer (test_peer ∷ []) = (test_peer-IsPeer, tt) in
    record { device_valid = assumption; one_section = λ e. cc; has_last_peer = λ e. tt }

process_line-Ensures_example :
    Ensures IsCtx (process_line slow_host 5 peer_ctx (codes "PersistentKeepalive=25"))
process_line-Ensures_example =
    process_line-Ensures slow_host slow_host-IsHost 5 (codes "PersistentKeepalive=25") peer_ctx
      peer_ctx-IsCtx

commented_line : cleaned_line (codes "Jc = 4 # junk") ≡ strip_spaces (codes "Jc = 4 ")
unfolding is_special
commented_line = cleaned_line-comment (codes "Jc = 4 ") (codes " junk") refl refl

comment_line_kept : config_read_line slow_host 5 start (codes "  # home") ≡ ok start
unfolding is_special char_is_space
comment_line_kept =
    config_read_line-comment slow_host 5 start (codes "  ") (codes " home") refl refl refl

clean_special_handshake_line_lem_example :
    clean_special_handshake_line (codes "I1 = <b 0x01> <r 9>  # first") 21
    ≡ strip_spaces (codes "I1 ") ++ b'=' ∷ codes "<b 0x01> <r 9>"
unfolding char_is_space
clean_special_handshake_line_lem_example =
    clean_special_handshake_line_lem (codes "I1 ") (codes " ") (codes "b 0x01> <r 9>")
      (codes "I1 = <b 0x01> <r 9") (codes "  ") (codes "# first") b'<' b'>' refl refl refl refl refl
      refl
