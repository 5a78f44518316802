-- ===== src/Simulation/Checker/Remembering.antt =====
-- internal/simulation/simulation.go, check: a check that passes keeps the votes and the leaders that
-- were seen.
use shard_zero.Prelude.{
  ℕ, ◌≡◌, ◌≢◌, refl, sym, ap, ◌∙◌, subst, true, ◌&&◌, ◌||◌, not, none, some, List, [], ◌∷◌, Text,
  text_eq, text_eq_iff, ltb, inl, inr, arith, get_or, Bool-cases,
}
use shard_zero.Prelude.Dict.{Key, Dict, text_key, nat_key, get, read, get-put}
use shard_zero.Events.{Event}
use shard_zero.Raft.Types.{Entry}
use shard_zero.Raft.Node.{is_leader}
use shard_zero.Raft.Client.{Status}
use shard_zero.Simulation.Checker.{
  Ledger, note, note_events, Checked, also, check_order, claim, vote_key, check_vote, check_leader,
  check_committed,
}

pub some-injective : {A : Type 0} (a b : A) → some a ≡ some b → a ≡ b
some-injective a b e = cc

-- A map that keeps each text under its key.
abbrev pub Kept : {K : Type 0} ⦃e : Key K⦄ → Dict K Text → Dict K Text → Type 0
Kept {K} m m' = (k : K) (v : Text) → v ≢ [] → get m k ≡ some v → get m' k ≡ some v

pub claim-Kept :
    {K : Type 0} ⦃e : Key K⦄ (m : Dict K Text) (k : K) (v : Text)
    → (claim m k v).1 ≡ true
    → Kept m (claim m k v).0
unfolding claim read
claim-Kept ⦃e⦄ m k v ok j w named h =
    elim (Bool-cases (not (text_eq (read m k []) []) && not (text_eq (read m k []) v))) [
      | inl clash ↦ cc (rw (clash, claim) at ok)
      | inr free ↦
          rw (free, claim)
            (elim (Bool-cases (e.eqb k j)) [
              | inr other ↦ get-put m k j v ∙ rw other h
              | inl same ↦
                  let at_k : get m k ≡ some w =
                    subst (λ x. get m x ≡ some w) (sym ((e.eqb_iff k j).0 same)) h in
                  let old : read m k [] ≡ w = rw (at_k, read) refl in
                  let equal : w ≡ v =
                    ground (arith, free, old, named, text_eq_iff w [], text_eq_iff w v) in
                  get-put m k j v ∙ rw same (ap some (sym equal))
            ])
    ]

pub claim-get :
    {K : Type 0} ⦃e : Key K⦄ (m : Dict K Text) (k : K) (v : Text)
    → (claim m k v).1 ≡ true
    → get (claim m k v).0 k ≡ some v
unfolding claim
claim-get ⦃e⦄ m k v ok =
    elim (Bool-cases (not (text_eq (read m k []) []) && not (text_eq (read m k []) v))) [
      | inl clash ↦ cc (rw (clash, claim) at ok)
      | inr free ↦ rw (free, claim) (get-put m k k v ∙ rw ((e.eqb_iff k k).1 refl) refl)
    ]

-- The votes and the leaders that were seen are kept.
pub record Remembers (l m : Ledger) : Type 0 where
  pub votes : Kept l.votes m.votes
  pub leaders : Kept l.leaders m.leaders

pub Remembers-refl : (l : Ledger) → Remembers l l
Remembers-refl l = record { votes = λ k v n h. h; leaders = λ k v n h. h }

pub Remembers-trans : {l m k : Ledger} → Remembers l m → Remembers m k → Remembers l k
Remembers-trans p q = record {
  votes = λ k v n h. q.votes k v n (p.votes k v n h);
  leaders = λ k v n h. q.leaders k v n (p.leaders k v n h);
}

-- A check that gives no error remembers.
abbrev pub Passes : Ledger → Checked → Type 0
Passes l (m, e) = e ≡ none → Remembers l m

pub also-Passes :
    (l : Ledger) (c : Checked) (f : Ledger → Checked)
    → Passes l c
    → ((m : Ledger) → Passes m (f m))
    → Passes l (also c f)
also-Passes l (m, some e) f p q = p
also-Passes l (m, none) f p q = λ ok. Remembers-trans (p refl) (q m ok)

pub note_events-Remembers :
    (events : List Event) (l : Ledger) (i : ℕ) → Remembers l (note_events l i events)
unfolding note_events note
note_events-Remembers [] l i = Remembers-refl l
note_events-Remembers (e ∷ events) l i =
    Remembers-trans (record { votes = λ k v n h. h; leaders = λ k v n h. h })
      (note_events-Remembers events _ i)

pub check_order-Passes : (l : Ledger) (i : ℕ) (s : Status) → Passes l (check_order l i s)
unfolding check_order
check_order-Passes l i s =
    elim (Bool-cases (
      ltb s.commit_index (get_or l.previous_commit i 0)
      || ltb s.last_applied (get_or l.previous_applied i 0)
      || ltb s.commit_index s.last_applied)) [
        | inl bad ↦ rw bad (λ ok. Remembers-refl l)
        | inr good ↦ rw good (λ ok. record { votes = λ k v n h. h; leaders = λ k v n h. h })
      ]

pub check_vote-Passes : (l : Ledger) (s : Status) (vote : Text) → Passes l (check_vote l s vote)
unfolding check_vote
check_vote-Passes l s vote = elim (Bool-cases (text_eq vote [])) [
  | inl free ↦ rw free (λ ok. Remembers-refl l)
  | inr voted ↦ rw voted (elim (Bool-cases (claim l.votes (vote_key s) vote).1) [
    | inr clash ↦ rw clash (λ ok. cc)
    | inl agrees ↦ rw agrees (λ ok. record {
      votes = claim-Kept l.votes (vote_key s) vote agrees;
      leaders = λ k v n h. h;
    })
  ])
]

pub check_leader-Passes : (l : Ledger) (s : Status) → Passes l (check_leader l s)
unfolding check_leader
check_leader-Passes l s = elim (Bool-cases (not (is_leader s.role))) [
  | inl follows ↦ rw follows (λ ok. Remembers-refl l)
  | inr leads ↦ rw leads (elim (Bool-cases (claim l.leaders s.term s.node_id).1) [
    | inr clash ↦ rw clash (λ ok. cc)
    | inl agrees ↦ rw agrees (λ ok. record {
      votes = λ k v n h. h;
      leaders = claim-Kept l.leaders s.term s.node_id agrees;
    })
  ])
]

pub check_committed-Passes :
    (l : Ledger) (s : Status) (e : Entry) (h : Text) → Passes l (check_committed l s e h)
unfolding check_committed
check_committed-Passes l s e h = elim (Bool-cases (ltb s.commit_index e.index)) [
  | inl after ↦ rw after (λ ok. Remembers-refl l)
  | inr here ↦ rw here (elim (Bool-cases (claim l.committed e.index h).1) [
    | inr clash ↦ rw clash (λ ok. cc)
    | inl agrees ↦ rw agrees (λ ok. record { votes = λ k v n x. x; leaders = λ k v n x. x })
  ])
]
