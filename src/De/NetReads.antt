-- ===== src/De/NetReads.antt =====
-- borsh/src/ser/mod.rs and borsh/src/de/mod.rs: the addresses of `std::net`, written and read back.
use borsh_rs.Prelude.{ℕ, ◌≡◌, refl, List, ◌∷◌, ◌++◌, length}
use mathlib.Core.Path.{subst}
use borsh_rs.Num.{to_le_bytes}
use borsh_rs.Io.{Read, Write, ok, ◌>>=◌}
use borsh_rs.Io.Laws.{IsRead, IsWrite, Reads, Reads-map, Reads-bind, Emits, Emits-then}
use borsh_rs.Encoding.{encode_uint, IsUint}
use borsh_rs.Ser.Primitives.{serialize_u8}
use borsh_rs.Ser.Net.{
  SocketAddr, SocketAddrV4, SocketAddrV6, v4, v6, serialize_socket_addr, serialize_socket_addr_v4,
  serialize_socket_addr_v6,
}
use package.borsh_rs.De.{read_exact_or}
use package.borsh_rs.De.Laws.{read_exact_or-Reads}
use package.borsh_rs.De.Primitives.{deserialize_u8, deserialize_uint}
use package.borsh_rs.De.Reads.{deserialize_u8-Reads, deserialize_uint-Reads}
use package.borsh_rs.De.Net.{
  deserialize_ip_addr, deserialize_socket_addr_v4, deserialize_socket_addr_v6, socket_addr_of_kind,
  deserialize_socket_addr,
}

-- A tag, the octets, and the port in two bytes.
abbrev pub encode_socket_addr : SocketAddr → List ℕ
encode_socket_addr (v4 addr) = 0 ∷ addr.ip ++ encode_uint 2 addr.port
encode_socket_addr (v6 addr) = 1 ∷ addr.ip ++ encode_uint 2 addr.port

abbrev pub SocketAddrValid : SocketAddr → Type 0
SocketAddrValid (v4 addr) = (length addr.ip ≡ 4) × IsUint 2 addr.port
SocketAddrValid (v6 addr) = (length addr.ip ≡ 16) × IsUint 2 addr.port

-- What the format keeps of an address: not the flow label and the scope of an IPv6 address.
abbrev pub kept : SocketAddr → SocketAddr
kept (v4 addr) = v4 addr
kept (v6 addr) = v6 (record { ip = addr.ip; port = addr.port; flowinfo = 0; scope_id = 0 })

module _ {R : Type 0} ⦃rd : Read R⦄ {view : R → List ℕ} (law : IsRead rd view) where
  ip_addr-Reads :
      (n : ℕ) (octets : List ℕ)
      → length octets ≡ n
      → Reads view (deserialize_ip_addr n) octets octets
  unfolding deserialize_ip_addr
  ip_addr-Reads n octets h =
      Reads-map (read_exact_or n) _
        (subst (λ k. Reads view (read_exact_or k) octets octets) h (read_exact_or-Reads law octets))
        (λ s. refl)

  v4-Reads :
      (addr : SocketAddrV4)
      → SocketAddrValid (v4 addr)
      → Reads view deserialize_socket_addr_v4 addr (addr.ip ++ encode_uint 2 addr.port)
  unfolding deserialize_socket_addr_v4
  v4-Reads addr (len, port) =
      Reads-bind (deserialize_ip_addr 4) _ (ip_addr-Reads 4 addr.ip len)
        (Reads-map (deserialize_uint 2) _ (deserialize_uint-Reads law 2 addr.port port) (λ s. refl))

  v6-Reads :
      (addr : SocketAddrV6)
      → SocketAddrValid (v6 addr)
      → Reads view deserialize_socket_addr_v6
          (record { ip = addr.ip; port = addr.port; flowinfo = 0; scope_id = 0 })
          (addr.ip ++ encode_uint 2 addr.port)
  unfolding deserialize_socket_addr_v6
  v6-Reads addr (len, port) =
      Reads-bind (deserialize_ip_addr 16) _ (ip_addr-Reads 16 addr.ip len)
        (Reads-map (deserialize_uint 2) _ (deserialize_uint-Reads law 2 addr.port port) (λ s. refl))

  socket_addr-Reads :
      (addr : SocketAddr)
      → SocketAddrValid addr
      → Reads view deserialize_socket_addr (kept addr) (encode_socket_addr addr)
  unfolding deserialize_socket_addr
  socket_addr-Reads (v4 addr) v =
      Reads-bind deserialize_u8 socket_addr_of_kind (deserialize_u8-Reads law 0)
        (Reads-map deserialize_socket_addr_v4 _ (v4-Reads addr v) (λ s. refl))
  socket_addr-Reads (v6 addr) v =
      Reads-bind deserialize_u8 socket_addr_of_kind (deserialize_u8-Reads law 1)
        (Reads-map deserialize_socket_addr_v6 _ (v6-Reads addr v) (λ s. refl))

  -- Over any reader that keeps its contract, a socket address with the right number of octets
  -- and a port of 16 bits is read back from an input that begins with its encoding, with the
  -- flow label and the scope of an IPv6 address set to 0, and the rest is left.
  pub deserialize_socket_addr-kept :
      (addr : SocketAddr) (s : R) (rest : List ℕ)
      → SocketAddrValid addr
      → view s ≡ encode_socket_addr addr ++ rest
      → (s' : R) × (deserialize_socket_addr s ≡ (ok (kept addr), s')) × (view s' ≡ rest)
  deserialize_socket_addr-kept addr s rest v h = (socket_addr-Reads addr v).takes s rest h

module _ {W : Type 0} ⦃wr : Write W⦄ (law : IsWrite wr) where
  octets_port-Emits :
      (ip : List ℕ) (port : ℕ)
      → Emits wr
          (λ w. (wr.write_all ip >>= (λ u. wr.write_all (to_le_bytes 2 port))) w)
          (ip ++ encode_uint 2 port)
  octets_port-Emits ip port =
      Emits-then law (wr.write_all ip) (wr.write_all (to_le_bytes 2 port))
        (record { writes = λ w. refl }) (record { writes = λ w. refl })

  socket_addr-Emits :
      (addr : SocketAddr) → Emits wr (serialize_socket_addr addr) (encode_socket_addr addr)
  unfolding serialize_socket_addr
  socket_addr-Emits (v4 addr) =
      Emits-then law (serialize_u8 0) (serialize_socket_addr_v4 addr)
        (record { writes = λ w. refl }) (octets_port-Emits addr.ip addr.port)
  socket_addr-Emits (v6 addr) =
      Emits-then law (serialize_u8 1) (serialize_socket_addr_v6 addr)
        (record { writes = λ w. refl }) (octets_port-Emits addr.ip addr.port)

  -- For a writer that takes a buffer as it takes its parts, a socket address is written as a
  -- tag, its octets, and its port in two bytes, and nothing of its flow label or scope.
  pub serialize_socket_addr-encode_socket_addr :
      (addr : SocketAddr) (w : W)
      → serialize_socket_addr addr w ≡ wr.write_all (encode_socket_addr addr) w
  serialize_socket_addr-encode_socket_addr addr w = (socket_addr-Emits addr).writes w
