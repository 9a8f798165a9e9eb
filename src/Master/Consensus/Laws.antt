-- ===== src/Master/Consensus/Laws.antt =====
-- What the consensus tests decide: that every client concerned has voted.
use pccl.Common.{
  ℕ, suc, ◌+◌, ◌≤◌, ◌≡◌, refl, Bool, true, false, ◌&&◌, List, [], ◌∷◌, if◌then◌else◌, ◌==◌, nat_eq,
  nat_beq_iff, count, all, length, contains, values, has, add, Unique, has-add, count-le-length,
  arith, length-append, length-values,
}
use pccl.Client.{
  ClientInfo, ConnectionState, is_accepted, state_eq, coll_eq, vote_initiate_collective_comms,
  vote_complete_collective_comms,
}
use pccl.Master.State.{MasterState, collect}
use pccl.Master.Loop.{Infos}
use pccl.Master.Consensus.{
  voted_or_registered, global_consensus, group_consensus, in_group, is_member, at_tag,
  collective_comms_initiate_consensus, collective_comms_complete_consensus,
}

module _ {ℓ} {A : Type ℓ} (p q : A → Bool) where
  pub count_and-le : (xs : List A) → count (λ x. p x && q x) xs ≤ count p xs
  count_and-le [] = omega arith
  count_and-le (x ∷ xs) = ground (arith, count_and-le xs)

  -- As many pass both tests as the first: whoever passes the first passes the second.
  pub count_and-all :
      (xs : List A)
      → (count (λ x. p x && q x) xs == count p xs) ≡ all (λ x. if p x then q x else true) xs
  count_and-all [] = refl
  count_and-all (x ∷ xs) = ground (arith, count_and-le xs, count_and-all xs)

  pub count-length : (xs : List A) → (count p xs == length xs) ≡ all p xs
  count-length [] = refl
  count-length (x ∷ xs) = ground (arith, count-le-length p xs, count-length xs)

-- Every client carries the uuid under which it is filed.
abbrev pub Keyed : Infos → Type 0
Keyed [] = Unit
Keyed ((k, i) ∷ m) = (i.client_uuid ≡ k) × Keyed m

abbrev Avoids : List ℕ → Infos → Type 0
Avoids acc [] = Unit
Avoids acc ((k, i) ∷ m) = (has k acc ≡ false) × Avoids acc m

Avoids-add :
    (k : ℕ) (acc : List ℕ) (m : Infos) → contains k m ≡ false → Avoids acc m → Avoids (add k acc) m
Avoids-add k acc [] c a = tt
Avoids-add k acc ((j, i) ∷ m) c a = (
  ground (arith, has-add k j acc, nat_beq_iff j k, nat_beq_iff k j),
  Avoids-add k acc m (ground arith) a.1,
)

length-add_new : (k : ℕ) (acc : List ℕ) → has k acc ≡ false → length (add k acc) ≡ suc (length acc)
length-add_new k acc h = rw h (omega (arith, length-append acc (k ∷ [])))

-- The set that the loop collects is as large as the number of the clients that pass the test.
length-collect :
    (p : ClientInfo → Bool) (m : Infos) (acc : List ℕ)
    → Unique m
    → Keyed m
    → Avoids acc m
    → length (collect p (λ i. i.client_uuid) (values m) acc) ≡ count p (values m) + length acc
length-collect p [] acc u k a = omega arith
length-collect p ((j, i) ∷ m) acc u k a =
    let fresh : has i.client_uuid acc ≡ false = rw k.0 a.0 in
    let once : contains i.client_uuid m ≡ false = rw k.0 u.0 in
    let more =
      length-collect p m (add i.client_uuid acc) u.1 k.1
        (Avoids-add i.client_uuid acc m once a.1) in
    ground (arith, more, length-add_new i.client_uuid acc fresh, length-collect p m acc u.1 k.1 a.1)

Avoids-nil : (m : Infos) → Avoids [] m
Avoids-nil [] = tt
Avoids-nil ((k, i) ∷ m) = (refl, Avoids-nil m)

-- If no uuid is filed twice, each client under its own uuid, and the maps of addresses and of
-- clients have one size, the counting test that decides a vote of all clients is true exactly if
-- every client is in the state of the vote or not yet accepted.
pub global_consensus-all :
    (st : ConnectionState) (s : MasterState)
    → Unique s.client_info
    → Keyed s.client_info
    → length s.client_uuids ≡ length s.client_info
    → global_consensus st s ≡ all (voted_or_registered st) (values s.client_info)
unfolding global_consensus
global_consensus-all st s u k e =
    let votes = voted_or_registered st in
    let size = length-collect votes s.client_info [] u k (Avoids-nil s.client_info) in
    ground
      (arith, size, count-length votes votes (values s.client_info), length-values s.client_info)

-- The start or the end of a collective operation is agreed exactly if every accepted client of the
-- group has cast that vote for the tag; other tags and other groups play no part.
pub collective_consensus-all :
    (g tag : ℕ) (s : MasterState)
    → (collective_comms_initiate_consensus g tag s
        ≡ all
            (λ i. if is_member g i then at_tag tag vote_initiate_collective_comms i else true)
            (values s.client_info))
      × (collective_comms_complete_consensus g tag s
          ≡ all
              (λ i. if is_member g i then at_tag tag vote_complete_collective_comms i else true)
              (values s.client_info))
unfolding collective_comms_initiate_consensus collective_comms_complete_consensus
collective_consensus-all g tag s = (
  count_and-all (is_member g) (at_tag tag vote_initiate_collective_comms) (values s.client_info),
  count_and-all (is_member g) (at_tag tag vote_complete_collective_comms) (values s.client_info),
)

voters-accepted :
    (st : ConnectionState) (g : ℕ) (is : List ClientInfo)
    → all (λ i. if i.connection_state == st then is_accepted i.connection_phase else true) is ≡ true
    → count (λ i. in_group g i && i.connection_state == st) is
      ≡ count (λ i. is_member g i && i.connection_state == st) is
voters-accepted st g [] h = refl
voters-accepted st g (i ∷ is) h = ground (arith, voters-accepted st g is)

count-members :
    (g : ℕ) (is : List ClientInfo)
    → count (λ i. in_group g i && is_accepted i.connection_phase) is ≡ count (is_member g) is
count-members g [] = refl
count-members g (i ∷ is) = ground (arith, count-members g is)

-- In a group whose voting clients are accepted, and whose set of votes is as large as the number
-- of clients in the state of the vote, the vote passes exactly if every accepted client of the
-- group is in that state.
pub group_consensus-all :
    (st : ConnectionState) (g : ℕ) (votes : List ℕ) (is : List ClientInfo)
    → all (λ i. if i.connection_state == st then is_accepted i.connection_phase else true) is ≡ true
    → length votes ≡ count (λ i. in_group g i && i.connection_state == st) is
    → group_consensus st g votes is
      ≡ all (λ i. if is_member g i then i.connection_state == st else true) is
unfolding group_consensus
group_consensus-all st g votes is h e = ground (
  arith,
  voters-accepted st g is h,
  count-members g is,
  count_and-all (is_member g) (λ i. i.connection_state == st) is,
)

-- A passed vote, without what it says of the set of votes.
pub group_consensus-members :
    (st : ConnectionState) (g : ℕ) (votes : List ℕ) (is : List ClientInfo)
    → all (λ i. if i.connection_state == st then is_accepted i.connection_phase else true) is ≡ true
    → group_consensus st g votes is ≡ true
    → all (λ i. if is_member g i then i.connection_state == st else true) is ≡ true
unfolding group_consensus
group_consensus-members st g votes is h e = ground (
  arith,
  nat_beq_iff (count (λ i. in_group g i && i.connection_state == st) is)
      (count (λ i. in_group g i && is_accepted i.connection_phase) is),
  voters-accepted st g is h,
  count-members g is,
  count_and-all (is_member g) (λ i. i.connection_state == st) is,
)
