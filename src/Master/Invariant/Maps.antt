-- ===== src/Master/Invariant/Maps.antt =====
-- The maps address -> uuid, uuid -> address and uuid -> client.
use mathlib.Core.Option
use pccl.Common.{
  ℕ, ◌≡◌, refl, sym, ap, ◌∙◌, false, List, [], ◌∷◌, Option, none, some, nat_eq, nat_beq_iff, lookup,
  contains, insert, erase, modify, Unique, map_values, arith, length, ◌↔◌, lookup-modify,
  lookup-map_values, lookup-erase, lookup-insert, lookup-contains, contains-lookup, contains-some,
  modify-Unique, map_values-Unique, insert-Unique, erase-Unique, length-modify, length-map_values,
  length-insert_new, length-erase,
}
use pccl.Net.{SocketAddress, socket_eq, socket_beq_iff}
use pccl.Client.{ClientInfo}
use pccl.Master.Loop.{Infos}
use pccl.Master.Consensus.Laws.{Keyed}

abbrev pub Addresses : Type 0
Addresses = List (SocketAddress × ℕ)

-- The three maps are in one-to-one correspondence, and a client is filed under its uuid.
pub record IsConsistent (m : Infos) (cu : Addresses) (uc : List (ℕ × SocketAddress)) : Type 0 where
  pub once : Unique m
  pub keyed : Keyed m
  pub address_once : Unique cu
  pub uuid_once : Unique uc
  pub address_of : (u : ℕ) → Option.map (λ i. i.socket_address) (lookup u m) ≡ lookup u uc
  pub inverse : (a : SocketAddress) (u : ℕ) → (lookup a cu ≡ some u) ↔ (lookup u uc ≡ some a)
  pub same_size : length cu ≡ length m

pub Keyed-lookup :
    (u : ℕ) (m : Infos) (i : ClientInfo) → Keyed m → lookup u m ≡ some i → i.client_uuid ≡ u
Keyed-lookup u [] i k e = cc
Keyed-lookup u ((j, x) ∷ m) i k e = ground (arith, nat_beq_iff j u, Keyed-lookup u m i k.1)

module _ (f : ClientInfo → ClientInfo)
    (keep : (i : ClientInfo) → (f i).client_uuid ≡ i.client_uuid) where
  modify-Keyed : (u : ℕ) (m : Infos) → Keyed m → Keyed (modify u f m)
  modify-Keyed u [] k = tt
  modify-Keyed u ((j, x) ∷ m) k = ground (arith, keep x, modify-Keyed u m k.1)

  map_values-Keyed : (m : Infos) → Keyed m → Keyed (map_values f m)
  map_values-Keyed [] k = tt
  map_values-Keyed ((j, x) ∷ m) k = (keep x ∙ k.0, map_values-Keyed m k.1)

insert-Keyed :
    (u : ℕ) (i : ClientInfo) (m : Infos) → i.client_uuid ≡ u → Keyed m → Keyed (insert u i m)
insert-Keyed u i [] e k = (e, tt)
insert-Keyed u i ((j, x) ∷ m) e k = ground (arith, nat_beq_iff j u, insert-Keyed u i m e k.1)

erase-Keyed : (u : ℕ) (m : Infos) → Keyed m → Keyed (erase u m)
erase-Keyed u [] k = tt
erase-Keyed u ((j, x) ∷ m) k = ground (arith, erase-Keyed u m k.1)

module _ (m : Infos) (cu : Addresses) (uc : List (ℕ × SocketAddress))
    (c : IsConsistent m cu uc) where
  module _ (f : ClientInfo → ClientInfo)
      (keep : (i : ClientInfo) → (f i).client_uuid ≡ i.client_uuid)
      (stay : (i : ClientInfo) → (f i).socket_address ≡ i.socket_address) where
    still :
        (o : Option ClientInfo)
        → Option.map (λ i. i.socket_address) (Option.map f o) ≡ Option.map (λ i. i.socket_address) o
    still none = refl
    still (some i) = ap some (stay i)

    pub modify-IsConsistent : (u : ℕ) → IsConsistent (modify u f m) cu uc
    modify-IsConsistent u = record {
      once = modify-Unique u f m c.once;
      keyed = modify-Keyed f keep u m c.keyed;
      address_once = c.address_once;
      uuid_once = c.uuid_once;
      address_of = λ w. ground (arith, lookup-modify u w f m, still (lookup w m), c.address_of w);
      inverse = c.inverse;
      same_size = omega (arith, length-modify u f m, c.same_size);
    }

    pub map_values-IsConsistent : IsConsistent (map_values f m) cu uc
    map_values-IsConsistent = record {
      once = map_values-Unique f m c.once;
      keyed = map_values-Keyed f keep m c.keyed;
      address_once = c.address_once;
      uuid_once = c.uuid_once;
      address_of = λ w. rw (lookup-map_values w f m) (still (lookup w m) ∙ c.address_of w);
      inverse = c.inverse;
      same_size = omega (arith, length-map_values f m, c.same_size);
    }

  -- A new client under a new uuid, from an address that is not registered.
  pub insert-IsConsistent :
      (a : SocketAddress) (u : ℕ) (i : ClientInfo)
      → contains a cu ≡ false
      → lookup u m ≡ none
      → i.client_uuid ≡ u
      → i.socket_address ≡ a
      → IsConsistent (insert u i m) (insert a u cu) (insert u a uc)
  insert-IsConsistent a u i ha hu eu ea =
      let no_uuid : lookup u uc ≡ none = sym (c.address_of u) ∙ ap (Option.map _) hu in
      record {
        once = insert-Unique u i m c.once;
        keyed = insert-Keyed u i m eu c.keyed;
        address_once = insert-Unique a u cu c.address_once;
        uuid_once = insert-Unique u a uc c.uuid_once;
        address_of =
            λ w. ground (arith, lookup-insert u w i m, lookup-insert u w a uc, c.address_of w);
        inverse = λ b w. ground (
          arith,
          lookup-insert a b u cu,
          lookup-insert u w a uc,
          c.inverse b w,
          socket_beq_iff a b,
          nat_beq_iff u w,
          lookup-contains a cu ha,
        );
        same_size = omega (
          arith,
          length-insert_new a u cu ha,
          length-insert_new u i m (contains-lookup u m hu),
          c.same_size,
        );
      }

  pub erase-IsConsistent :
      (a : SocketAddress) (u : ℕ) (i : ClientInfo)
      → lookup a cu ≡ some u
      → lookup u m ≡ some i
      → IsConsistent (erase u m) (erase a cu) (erase u uc)
  erase-IsConsistent a u i ha hu = record {
    once = erase-Unique u m c.once;
    keyed = erase-Keyed u m c.keyed;
    address_once = erase-Unique a cu c.address_once;
    uuid_once = erase-Unique u uc c.uuid_once;
    address_of = λ w.
        ground (arith, lookup-erase u w m c.once, lookup-erase u w uc c.uuid_once, c.address_of w);
    inverse = λ b w. ground (
      arith,
      lookup-erase a b cu c.address_once,
      lookup-erase u w uc c.uuid_once,
      c.inverse b w,
      c.inverse a u,
      c.inverse a w,
      c.inverse b u,
      socket_beq_iff a b,
      nat_beq_iff u w,
    );
    same_size = omega (
      arith,
      length-erase a cu (contains-some a u cu ha),
      length-erase u m (contains-some u i m hu),
      c.same_size,
    );
  }
