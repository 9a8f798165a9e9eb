-- ===== src/Packets/Fields.antt =====
-- The round trips of what stands in several packets.
use pccl.Common.{ℕ, ◌≡◌, ◌<◌, refl, true, false, List, [], ◌∷◌, length, All, subst, arith}
use native.Mathlib.Nat.{mod-eq_of_lt}
use pccl.Net.{SocketAddress, InetAddress, ipv4, ipv6}
use pccl.Master.State.{
  HashType, hash_simple, hash_crc32, SyncStrategy, enforce_popular, rx_only, tx_only,
  SharedStateHashEntry,
}
use pccl.PacketBuffer.{read_u8, read_times, write_u8, write_bytes, ◌>>=◌, weight, read_bool}
use pccl.PacketBuffer.Reads.{
  Reads, Reads-return, Reads-bind, Reads-map, Reads-u8, Reads-bool, Reads-unsigned, Reads-string,
  Reads-bytes,
}
use pccl.Packets.{
  hash_type_code, hash_type_from, read_hash_type, strategy_code, strategy_from, write_inet,
  write_socket_address, read_socket_address, read_inet, write_hash_entry, read_hash_entry,
}

-- The fields' values are those of the code's types.
abbrev pub InetFits : InetAddress → Type 0
InetFits (ipv4 x y z w) = (x < 256) × (y < 256) × (z < 256) × (w < 256)
InetFits (ipv6 bytes) = (length bytes ≡ 16) × All (λ b. b < 256) bytes

abbrev pub AddressFits : SocketAddress → Type 0
AddressFits a = InetFits a.inet × (a.port < weight 2)

abbrev pub EntryFits : SharedStateHashEntry → Type 0
EntryFits e =
    (length e.key < weight 8) × (e.hash < weight 8) × (e.data_size < weight 8) × (e.data_type < 256)

pub Reads-hash_type : (t : HashType) → Reads read_hash_type t (write_u8 (hash_type_code t))
Reads-hash_type hash_simple =
    Reads-bind hash_type_from (Reads-u8 0 (omega arith)) (Reads-return hash_simple)
Reads-hash_type hash_crc32 =
    Reads-bind hash_type_from (Reads-u8 1 (omega arith)) (Reads-return hash_crc32)

pub Reads-strategy :
    (t : SyncStrategy) → Reads (read_u8 >>= strategy_from) t (write_u8 (strategy_code t))
Reads-strategy enforce_popular =
    Reads-bind strategy_from (Reads-u8 0 (omega arith)) (Reads-return enforce_popular)
Reads-strategy rx_only = Reads-bind strategy_from (Reads-u8 1 (omega arith)) (Reads-return rx_only)
Reads-strategy tx_only = Reads-bind strategy_from (Reads-u8 2 (omega arith)) (Reads-return tx_only)

write_bytes_lem : (bs : List ℕ) → All (λ b. b < 256) bs → write_bytes bs ≡ bs
unfolding write_bytes
write_bytes_lem [] h = refl
write_bytes_lem (b ∷ bs) h = ground (arith, mod-eq_of_lt h.0, write_bytes_lem bs h.1)

Reads-ipv4 :
    (x y z w : ℕ)
    → InetFits (ipv4 x y z w)
    → Reads (read_inet true) (ipv4 x y z w) (write_bytes (x ∷ y ∷ z ∷ w ∷ []))
unfolding write_bytes
Reads-ipv4 x y z w h = Reads-bind _ (Reads-u8 x h.0) (
    Reads-bind _ (Reads-u8 y h.1)
      (Reads-bind _ (Reads-u8 z h.2) (Reads-map (ipv4 x y z) (Reads-u8 w h.3))))

Reads-ipv6 :
    (bytes : List ℕ)
    → InetFits (ipv6 bytes)
    → Reads (read_inet false) (ipv6 bytes) (write_bytes bytes)
Reads-ipv6 bytes h = rw (write_bytes_lem bytes h.1) (
    Reads-map ipv6
      (subst (λ n. Reads (read_times n read_u8) bytes bytes) h.0 (Reads-bytes bytes h.1)))

Reads-inet : (i : InetAddress) → InetFits i → Reads (read_bool >>= read_inet) i (write_inet i)
unfolding write_inet
Reads-inet (ipv4 x y z w) h = Reads-bind read_inet (Reads-bool true) (Reads-ipv4 x y z w h)
Reads-inet (ipv6 bytes) h = Reads-bind read_inet (Reads-bool false) (Reads-ipv6 bytes h)

pub Reads-address :
    (a : SocketAddress) → AddressFits a → Reads read_socket_address a (write_socket_address a)
unfolding read_socket_address write_socket_address
Reads-address a h = Reads-bind _ (Reads-inet a.inet h.0) (Reads-map _ (Reads-unsigned 2 a.port h.1))

pub Reads-entry :
    (e : SharedStateHashEntry) → EntryFits e → Reads read_hash_entry e (write_hash_entry e)
unfolding read_hash_entry write_hash_entry
Reads-entry e h = Reads-bind _ (Reads-string e.key h.0) (
    Reads-bind _ (Reads-unsigned 8 e.hash h.1) (
      Reads-bind _ (Reads-hash_type e.hash_type) (
        Reads-bind _ (Reads-unsigned 8 e.data_size h.2) (
          Reads-bind _ (Reads-u8 e.data_type h.3)
            (Reads-map _ (Reads-bool e.allow_content_inequality))))))
