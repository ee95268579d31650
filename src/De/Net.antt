-- ===== src/De/Net.antt =====
-- borsh/src/de/mod.rs: the addresses of `std::net`.
use borsh_rs.Prelude.{ℕ, List, ◌==◌, if◌then◌else◌}
use Prim.Native.String.{◌++◌ as str_append}
use borsh_rs.Num.{decimal_u8}
use borsh_rs.Io.{M, Read, custom, invalid_input, pure, fail, ◌>>=◌}
use borsh_rs.Ser.Net.{SocketAddr, SocketAddrV4, SocketAddrV6, v4, v6}
use package.borsh_rs.De.{read_exact_or}
use package.borsh_rs.De.Primitives.{deserialize_u8, deserialize_uint}

module _ {R : Type 0} ⦃rd : Read R⦄ where
  -- `Ipv4Addr` has 4 octets and `Ipv6Addr` has 16.
  unfoldable pub deserialize_ip_addr : ℕ → M R (List ℕ)
  unfolding read_exact_or
  deserialize_ip_addr n = do buf ← read_exact_or n; pure buf

  unfoldable pub deserialize_socket_addr_v4 : M R SocketAddrV4
  unfolding deserialize_ip_addr deserialize_uint
  deserialize_socket_addr_v4 = do
    ip ← deserialize_ip_addr 4
    port ← deserialize_uint 2
    pure (record { ip = ip; port = port })

  unfoldable pub deserialize_socket_addr_v6 : M R SocketAddrV6
  unfolding deserialize_ip_addr deserialize_uint
  deserialize_socket_addr_v6 = do
    ip ← deserialize_ip_addr 16
    port ← deserialize_uint 2
    pure (record { ip = ip; port = port; flowinfo = 0; scope_id = 0 })

  -- The match on the first byte.
  abbrev pub socket_addr_of_kind : ℕ → M R SocketAddr
  socket_addr_of_kind kind =
      if kind == 0
      then deserialize_socket_addr_v4 >>= (λ addr. pure (v4 addr))
      else if kind == 1
      then deserialize_socket_addr_v6 >>= (λ addr. pure (v6 addr))
      else fail (custom invalid_input (str_append "Invalid SocketAddr variant: " (decimal_u8 kind)))

  unfoldable pub deserialize_socket_addr : M R SocketAddr
  unfolding deserialize_u8 deserialize_socket_addr_v4 deserialize_socket_addr_v6
  deserialize_socket_addr = do kind ← deserialize_u8; socket_addr_of_kind kind
