-- ===== src/Tests/Setup.antt =====
-- A host, keys and files for the tests.
use router1_app.Prelude.{
  ℕ, zero, suc, ◌<◌, sym, ap, true, Option, none, some, List, [], ◌∷◌, arith, Bytes, codes, length,
  replicate,
}
use mathlib.Core.Path.{subst}
use router1_app.Encoding.Flags.{IsKey}
use router1_app.Containers.{
  Family, SockAddr, AllowedIp, af_unspec, af_inet, af_inet6, other, Device, zero_device, Peer,
  zero_peer,
}
use router1_app.Containers.Valid.{IsPeer}
use router1_app.Config.Host.{Host, IsHost, Gai, Resolved, found, error, eai_again, no_file}

abbrev pub address : SockAddr
address = record { sa_family = af_inet; sa_data = 10 ∷ 0 ∷ 0 ∷ 1 ∷ [] }

abbrev pub resolved : Resolved
resolved = record { ai_addr = address; ai_port = 51820; ai_addrlen = 16 }

abbrev pton : Family → Bytes → Option Bytes
pton af_inet text = some (10 ∷ 0 ∷ 0 ∷ 1 ∷ [])
pton af_inet6 text = some (replicate 16 0)
pton af_unspec text = none
pton other text = none

-- The first answers say that a name cannot be resolved for now.
abbrev answers : ℕ → Gai
answers zero = error eai_again
answers (suc zero) = error eai_again
answers (suc (suc n)) = found resolved

abbrev pub slow_host : Host
slow_host = record {
  getaddrinfo = λ n node service. answers n;
  inet_pton = pton;
  retries_variable = none;
  open_file = λ path. no_file;
  sizeof_sockaddr_in = 16;
  sizeof_sockaddr_in6 = 28;
}

port_of : Gai → ℕ
port_of (found r) = r.ai_port
port_of (error e) = 0

answers_port : (n : ℕ) → port_of (answers n) < 65536
unfolding port_of
answers_port zero = omega arith
answers_port (suc zero) = omega arith
answers_port (suc (suc n)) = omega arith

size_of : Option Bytes → ℕ
size_of none = 0
size_of (some ip) = length ip

pub slow_host-IsHost : IsHost slow_host
unfolding port_of size_of
slow_host-IsHost = record {
  port_range = λ n node service r e. subst (λ (g : Gai). port_of g < 65536) e (answers_port n);
  inet_size = λ text ip e. sym (ap size_of e);
  inet6_size = λ text ip e. sym (ap size_of e);
}

-- The key of the bytes 1 to 32, and its texts.
abbrev pub test_key : Bytes
test_key =
    1 ∷ 2 ∷ 3 ∷ 4 ∷ 5 ∷ 6 ∷ 7 ∷ 8 ∷ 9 ∷ 10 ∷ 11 ∷ 12 ∷ 13 ∷ 14 ∷ 15 ∷ 16 ∷ 17 ∷ 18 ∷ 19 ∷ 20 ∷ 21
    ∷ 22 ∷ 23 ∷ 24 ∷ 25 ∷ 26 ∷ 27 ∷ 28 ∷ 29 ∷ 30 ∷ 31 ∷ 32 ∷ []

pub test_key-IsKey : IsKey test_key
test_key-IsKey = omega arith

abbrev pub test_key_base64 : Bytes
test_key_base64 = codes "AQIDBAUGBwgJCgsMDQ4PEBESExQVFhcYGRobHB0eHyA="

abbrev pub test_key_hex : Bytes
test_key_hex = codes "0102030405060708090A0b0c0d0e0f101112131415161718191a1b1c1d1e1f20"

abbrev pub test_file : List Bytes
test_file =
    codes "[Interface] # home"
    ∷ codes "FwMark = 0x10"
    ∷ codes "Jc = 4"
    ∷ codes "I1 = <b 0x01> <r 16>"
    ∷ codes ""
    ∷ codes "[Peer]"
    ∷ codes "PublicKey = AQIDBAUGBwgJCgsMDQ4PEBESExQVFhcYGRobHB0eHyA="
    ∷ codes "AllowedIPs = 10.0.0.1/32, fd00::1/64"
    ∷ codes "PersistentKeepalive = 25"
    ∷ []

abbrev pub test_args : List Bytes
test_args =
    codes "fwmark"
    ∷ codes "off"
    ∷ codes "jc"
    ∷ codes "4"
    ∷ codes "peer"
    ∷ test_key_base64
    ∷ codes "allowed-ips"
    ∷ codes "10.0.0.1/32, fd00::1/64"
    ∷ codes "persistent-keepalive"
    ∷ codes "25"
    ∷ []

abbrev pub test_peer : Peer
test_peer = record zero_peer { flags = 4; public_key = test_key }

abbrev pub test_device : Device
test_device = record zero_device { peers = test_peer ∷ [] }

abbrev pub awg_peer : Peer
awg_peer = record test_peer { flags = 36; awg = true }

abbrev pub test_awg_device : Device
test_awg_device = record zero_device { peers = test_peer ∷ awg_peer ∷ [] }

abbrev pub test_ip : AllowedIp
test_ip = record { family = af_inet; ip = 10 ∷ 0 ∷ 0 ∷ 0 ∷ []; cidr = 8 }

pub test_peer-IsPeer : IsPeer test_peer
test_peer-IsPeer = record {
  public_key_size = test_key-IsKey;
  preshared_key_size = omega arith;
  interval_range = omega arith;
  allowedips_valid = tt;
}
