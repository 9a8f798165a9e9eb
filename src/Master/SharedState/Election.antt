-- ===== src/Master/SharedState/Election.antt =====
-- Who wins the election of the shared state mask.
use pccl.Common.{
  ℕ, ◌≤◌, ◌≡◌, refl, ap, sym, Bool, true, false, ◌&&◌, not, [], ◌∷◌, Option, none, some,
  if◌then◌else◌, ◌==◌, nat_eq, nat_beq_iff, ltb, leb, all, subst, lookup-insert, length, get_or,
  lookup, All, arith, ◌⊎◌, inl, inr, Bool-cases, ==-refl,
}
use pccl.Master.State.{MasterState, PerPeer, SharedStateMismatchStatus}
use pccl.Master.Phases.{get_shared_state_mismatch_status}
use pccl.Master.SharedState.{
  Entries, ElectionStats, Poll, cast_vote, count_vote, count_votes, max_priority, most_votes,
  winner_of, entries_beq, elect_shared_state_mask,
}

-- A list of entries stands in the poll with these votes, and that priority.
abbrev pub Stands : ℕ → Entries → ℕ → Poll → Type 0
Stands top c n [] = ⊥
Stands top c n ((d, t) ∷ p) = ((d ≡ c) × (t.num_votes ≡ n) × (t.priority ≡ top)) ⊎ Stands top c n p

-- A list of the poll has no higher priority, and no more votes at that priority.
abbrev pub is_beaten : ℕ → ℕ → Entries × ElectionStats → Bool
is_beaten top n (c, t) =
    leb t.priority top && (if t.priority == top then leb t.num_votes n else true)

max_priority-le :
    (p : Poll) (b : ℕ) → (b ≤ max_priority p b) × All (λ e. (e.1).priority ≤ max_priority p b) p
unfolding max_priority
max_priority-le [] b = (omega arith, tt)
max_priority-le ((c, t) ∷ p) b =
    let (low, rest) = max_priority-le p (if ltb b t.priority then t.priority else b) in
    (ground (arith, low), (ground (arith, low), rest))

most_votes-le :
    (top : ℕ) (p : Poll) (w : Entries) (v : ℕ)
    → (v ≤ (most_votes top p w v).1)
      × All (λ e. (e.1).priority ≡ top → (e.1).num_votes ≤ (most_votes top p w v).1) p
unfolding most_votes
most_votes-le top [] w v = (omega arith, tt)
most_votes-le top ((c, t) ∷ p) w v =
    let better = t.priority == top && ltb v t.num_votes in
    let (low, rest) =
      most_votes-le top p (if better then c else w) (if better then t.num_votes else v) in
    (ground (arith, low), (λ e. ground (arith, low, nat_beq_iff t.priority top), rest))

-- The result is the candidate so far, or stands in the poll.
most_votes-Stands :
    (top : ℕ) (p : Poll) (w : Entries) (v : ℕ)
    → (most_votes top p w v ≡ (w, v))
      ⊎ Stands top (most_votes top p w v).0 (most_votes top p w v).1 p
unfolding most_votes
most_votes-Stands top [] w v = inl refl
most_votes-Stands top ((c, t) ∷ p) w v =
    elim (Bool-cases (t.priority == top && ltb v t.num_votes)) [
      | inl better ↦
          let step : most_votes top ((c, t) ∷ p) w v ≡ most_votes top p c t.num_votes =
            rw (better, most_votes) refl in
          subst goal (sym step) (elim (most_votes-Stands top p c t.num_votes) [
            | inl same ↦ inr (
                inl (
                  sym (ap (λ r. r.0) same),
                  sym (ap (λ r. r.1) same),
                  ground (arith, nat_beq_iff t.priority top),
                ))
            | inr later ↦ inr (inr later)
          ])
      | inr worse ↦
          let step : most_votes top ((c, t) ∷ p) w v ≡ most_votes top p w v =
            rw (worse, most_votes) refl in
          subst goal (sym step) (elim (most_votes-Stands top p w v) [
            | inl same ↦ inl same
            | inr later ↦ inr (inr later)
          ])
    ]
  where
    goal : Entries × ℕ → Type 0
    goal r = (r ≡ (w, v)) ⊎ Stands top r.0 r.1 ((c, t) ∷ p)

-- Every list of the poll has a vote.
abbrev HasVotes : Poll → Type 0
HasVotes p = All (λ e. 1 ≤ (e.1).num_votes) p

count_vote-HasVotes :
    (status : Option SharedStateMismatchStatus) (entries : Entries) (p : Poll)
    → HasVotes p
    → HasVotes (count_vote status entries p) × ((length (count_vote status entries p) == 0) ≡ false)
unfolding count_vote
count_vote-HasVotes none entries [] h = ((omega arith, tt), refl)
count_vote-HasVotes (some status) entries [] h = ((omega arith, tt), refl)
count_vote-HasVotes status entries ((c, t) ∷ p) h = elim (Bool-cases (entries_beq c entries)) [
  | inl same ↦ rw (same, count_vote) ((voted status, h.1), ground arith)
  | inr other ↦
      rw (other, count_vote) ((h.0, (count_vote-HasVotes status entries p h.1).0), ground arith)
]
  where
    voted : (o : Option SharedStateMismatchStatus) → 1 ≤ (cast_vote o t).num_votes
    voted none = omega arith
    voted (some st) = omega arith

count_votes-HasVotes :
    (s : MasterState) (cs : PerPeer Entries) (p : Poll)
    → HasVotes p
    → HasVotes (count_votes s cs p)
      × ((length (count_votes s cs p) == 0) ≡ (length cs == 0 && length p == 0))
unfolding count_votes
count_votes-HasVotes s [] p h = (h, refl)
count_votes-HasVotes s ((u, es) ∷ cs) p h =
    let (more, full) = count_vote-HasVotes (get_shared_state_mismatch_status u s) es p h in
    let (all_of, size) =
      count_votes-HasVotes s cs (count_vote (get_shared_state_mismatch_status u s) es p) more in
    (all_of, ground arith)

abbrev Reached : ℕ → Poll → Type 0
Reached m [] = ⊥
Reached m ((c, t) ∷ p) = (t.priority ≡ m) ⊎ Reached m p

max_priority-Reached : (p : Poll) (b : ℕ) → (max_priority p b ≡ b) ⊎ Reached (max_priority p b) p
unfolding max_priority
max_priority-Reached [] b = inl refl
max_priority-Reached ((c, t) ∷ p) b = elim (Bool-cases (ltb b t.priority)) [
  | inl more ↦
      let step : max_priority ((c, t) ∷ p) b ≡ max_priority p t.priority =
        rw (more, max_priority) refl in
      subst goal (sym step) (elim (max_priority-Reached p t.priority) [
        | inl same ↦ inr (inl (sym same))
        | inr later ↦ inr (inr later)
      ])
  | inr less ↦
      let step : max_priority ((c, t) ∷ p) b ≡ max_priority p b = rw (less, max_priority) refl in
      subst goal (sym step)
        (elim (max_priority-Reached p b) [ inl same ↦ inl same | inr later ↦ inr (inr later) ])
]
  where
    goal : ℕ → Type 0
    goal r = (r ≡ b) ⊎ Reached r ((c, t) ∷ p)

Reached-votes :
    (top n : ℕ) (p : Poll)
    → Reached top p
    → HasVotes p
    → All (λ e. (e.1).priority ≡ top → (e.1).num_votes ≤ n) p
    → 1 ≤ n
Reached-votes top n [] r h a = absurd r
Reached-votes top n ((c, t) ∷ p) (inl here) h a = let le = a.0 here in omega (arith, le, h.0)
Reached-votes top n ((c, t) ∷ p) (inr later) h a = Reached-votes top n p later h.1 a.1

-- A poll with a list in it elects one with a vote.
winner-votes : (p : Poll) → HasVotes p → (length p == 0) ≡ false → 1 ≤ (winner_of p).1
unfolding winner_of
winner-votes [] h n = ground arith
winner-votes ((c, t) ∷ p) h n =
    let q : Poll = (c, t) ∷ p in
    let top = max_priority q 0 in
    let best = (most_votes-le top q [] 0).1 in
    elim (max_priority-Reached q 0) [
      | inl zero_top ↦
          let low = (max_priority-le q 0).1.0 in
          Reached-votes top (most_votes top q [] 0).1 q (inl (omega arith)) h best
      | inr reached ↦ Reached-votes top (most_votes top q [] 0).1 q reached h best
    ]

empty-votes : (p : Poll) → (length p == 0) ≡ true → (winner_of p).1 ≡ 0
unfolding winner_of most_votes
empty-votes [] h = refl
empty-votes (x ∷ p) h = ground arith

beaten :
    (top n : ℕ) (p : Poll)
    → All (λ e. (e.1).priority ≤ top) p
    → All (λ e. (e.1).priority ≡ top → (e.1).num_votes ≤ n) p
    → all (is_beaten top n) p ≡ true
beaten top n [] a b = refl
beaten top n ((c, t) ∷ p) a b =
    let low = a.0 in
    let few = b.0 in ground (arith, nat_beq_iff t.priority top, low, few, beaten top n p a.1 b.1)

abbrev pub candidates_of : ℕ → MasterState → PerPeer Entries
candidates_of g s = get_or [] g s.shared_state_mask_candidates

abbrev pub poll_of : ℕ → MasterState → Poll
poll_of g s = count_votes s (candidates_of g s) []

-- The election fails exactly if the group has no candidate.
pub elect_shared_state_mask-candidates :
    (g : ℕ) (s : MasterState)
    → (elect_shared_state_mask g s).1 ≡ not (length (candidates_of g s) == 0)
unfolding elect_shared_state_mask winner_of count_votes
elect_shared_state_mask-candidates g s =
    let (voted, size) = count_votes-HasVotes s (candidates_of g s) [] tt in
    elim (Bool-cases (length (candidates_of g s) == 0)) [
      | inl empty ↦ ground (arith, empty-votes (poll_of g s) (ground arith))
      | inr full ↦ let some_votes = winner-votes (poll_of g s) voted (ground arith) in ground arith
    ]

-- After an election that succeeds, the group's mask is a list that stands in the poll with the
-- highest priority of all and with the most votes of that priority.
pub elect_shared_state_mask-winner :
    (g : ℕ) (s : MasterState)
    → (elect_shared_state_mask g s).1 ≡ true
    → let poll : Poll = poll_of g s in
      let top : ℕ = max_priority poll 0 in
      let winner : Entries × ℕ = winner_of poll in
      (lookup g (elect_shared_state_mask g s).0.shared_state_mask ≡ some winner.0)
      × Stands top winner.0 winner.1 poll
      × (all (is_beaten top winner.1) poll ≡ true)
unfolding elect_shared_state_mask winner_of
elect_shared_state_mask-winner g s won =
    let poll : Poll = poll_of g s in
    let top = max_priority poll 0 in
    (
      ground (arith, lookup-insert g g (winner_of poll).0 s.shared_state_mask, ==-refl g),
      elim (most_votes-Stands top poll [] 0) [
        | inl none_won ↦ absurd (ground (arith, ap (λ r. r.1) none_won))
        | inr stands ↦ stands
      ],
      beaten top (winner_of poll).1 poll (max_priority-le poll 0).1 (most_votes-le top poll [] 0).1,
    )
