-- ===== src/Config/Host.antt =====
-- What config.c takes from the host: name resolution, address parsing, the environment and files.
use router1_app.Prelude.{ℕ, ◌<◌, ◌≡◌, Option, some, Bytes, length}
use router1_app.Containers.{Family, SockAddr, af_inet, af_inet6}

-- The codes of `getaddrinfo` that config.c tells apart.
pub data GaiError : Type 0 where
  eai_noname eai_fail eai_nodata eai_again eai_system : GaiError

-- An answer: the first address found, with the port that the service stands for and the length of
-- the structure, or an error.
pub record Resolved : Type 0 where
  pub ai_addr : SockAddr
  pub ai_port : ℕ
  pub ai_addrlen : ℕ

pub data Gai : Type 0 where
  found : Resolved → Gai
  error : GaiError → Gai

-- What `fread` and `getc` of `parse_keyfile` see of a file.
pub data KeyFile : Type 0 where
  no_file : KeyFile
  contents : Bytes → KeyFile

-- `getaddrinfo n host service` is the answer to the n-th call for this pair; the network may change
-- between two calls. `sizeof` of the two socket addresses are the host's.
pub record Host : Type 0 where
  pub getaddrinfo : ℕ → Option Bytes → Bytes → Gai
  pub inet_pton : Family → Bytes → Option Bytes
  pub retries_variable : Option Bytes
  pub open_file : Bytes → KeyFile
  pub sizeof_sockaddr_in : ℕ
  pub sizeof_sockaddr_in6 : ℕ

-- What the manuals say of them: a port has 16 bits, and an address has 4 or 16 bytes.
pub record IsHost (h : Host) : Type 0 where
  pub port_range :
      (n : ℕ) (node : Option Bytes) (service : Bytes) (r : Resolved)
      → h.getaddrinfo n node service ≡ found r
      → r.ai_port < 65536
  pub inet_size : (text ip : Bytes) → h.inet_pton af_inet text ≡ some ip → length ip ≡ 4
  pub inet6_size : (text ip : Bytes) → h.inet_pton af_inet6 text ≡ some ip → length ip ≡ 16
