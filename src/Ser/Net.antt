-- ===== src/Ser/Net.antt =====
-- borsh/src/ser/mod.rs: the addresses of `std::net`. An IP address is its octets.
use borsh_rs.Prelude.{ℕ, List}
use borsh_rs.Io.{M, Write, ◌>>◌}
use package.borsh_rs.Ser.Primitives.{serialize_u8, serialize_uint}

pub record SocketAddrV4 : Type 0 where
  pub ip : List ℕ
  pub port : ℕ

pub record SocketAddrV6 : Type 0 where
  pub ip : List ℕ
  pub port : ℕ
  pub flowinfo : ℕ
  pub scope_id : ℕ

pub data SocketAddr : Type 0 where
  v4 : SocketAddrV4 → SocketAddr
  v6 : SocketAddrV6 → SocketAddr

module _ {W : Type 0} ⦃wr : Write W⦄ where
  -- `Ipv4Addr` and `Ipv6Addr`.
  unfoldable pub serialize_ip_addr : List ℕ → M W (Unit {0})
  serialize_ip_addr octets = wr.write_all octets

  unfoldable pub serialize_socket_addr_v4 : SocketAddrV4 → M W (Unit {0})
  unfolding serialize_ip_addr serialize_uint
  serialize_socket_addr_v4 self = do serialize_ip_addr self.ip; serialize_uint 2 self.port

  unfoldable pub serialize_socket_addr_v6 : SocketAddrV6 → M W (Unit {0})
  unfolding serialize_ip_addr serialize_uint
  serialize_socket_addr_v6 self = do serialize_ip_addr self.ip; serialize_uint 2 self.port

  unfoldable pub serialize_socket_addr : SocketAddr → M W (Unit {0})
  unfolding serialize_u8 serialize_socket_addr_v4 serialize_socket_addr_v6
  serialize_socket_addr (v4 addr) = do serialize_u8 0; serialize_socket_addr_v4 addr
  serialize_socket_addr (v6 addr) = do serialize_u8 1; serialize_socket_addr_v6 addr
