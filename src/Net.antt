-- ===== src/Net.antt =====
-- The address types of `std::net` that the program passes around.
use aether_gui.Common.{ℕ, ◌<◌, ◌≡◌, List, length}
use aether_gui.Common.Bytes.{IsBytes}

-- `IpAddr`, by its octets.
pub data IpAddr : Type 0 where
  v4 : List ℕ → IpAddr
  v6 : List ℕ → IpAddr

pub record SocketAddr : Type 0 where
  pub ip : IpAddr
  pub port : ℕ

-- An address has 4 or 16 octets, and each is a byte.
abbrev pub IsIpAddr : IpAddr → Type 0
IsIpAddr (v4 o) = (length o ≡ 4) × IsBytes o
IsIpAddr (v6 o) = (length o ≡ 16) × IsBytes o

pub record IsSocketAddr (a : SocketAddr) : Type 0 where
  pub address : IsIpAddr a.ip
  pub port : a.port < 65536
