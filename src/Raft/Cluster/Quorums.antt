-- ===== src/Raft/Cluster/Quorums.antt =====
-- internal/raft: two majorities of the members share a member.
use shard_zero.Prelude.{
  suc, ◌+◌, ◌/◌, ◌<◌, ◌≤◌, ◌≡◌, ◌≢◌, ◌⊎◌, inl, inr, refl, ◌∙◌, Bool, none, List, [], ◌∷◌, Text,
  text_eq, text_eq_iff, length, Includes, arith, Bool-cases, Option-cases,
}
use shard_zero.Prelude.Dict.{
  Dict, text_key, get, remove, get-remove, HasUniqueKeys, HasUniqueKeys-remove,
}

-- The keys of a map.
abbrev pub HasKey : Dict Text Bool → Text → Type 0
HasKey m p = get m p ≢ none

length_without : (m : Dict Text Bool) (k : Text) → get m k ≡ none → length (remove m k) ≡ length m
unfolding get remove
length_without [] k h = refl
length_without ((j, v) ∷ m) k h = ground (arith, length_without m k)

length-remove :
    (m : Dict Text Bool) (k : Text) → HasUniqueKeys m → length m ≤ suc (length (remove m k))
unfolding get remove
length-remove [] k u = omega arith
length-remove ((j, v) ∷ m) k u =
    ground (arith, length-remove m k, length_without m k, text_eq_iff j k)

HasKey-remove : (m : Dict Text Bool) (k p : Text) → HasKey (remove m k) p → (k ≢ p) × HasKey m p
HasKey-remove m k p h = elim (Bool-cases (text_eq k p)) [
  | inl e ↦ absurd (h (get-remove m k p ∙ rw e))
  | inr differ ↦ (λ e. cc (differ, (text_eq_iff k p).1 e), λ e. h (get-remove m k p ∙ rw differ e))
]

HasKey-head : (k : Text) (v : Bool) (m : Dict Text Bool) → HasKey ((k, v) ∷ m) k
unfolding get
HasKey-head k v m e = ground (arith, text_eq_iff k k)

-- Without a key, the keys are members without it.
members_without :
    (i : Text) (ids : List Text) (m : Dict Text Bool)
    → ((p : Text) → HasKey m p → Includes (i ∷ ids) p)
    → (p : Text) → HasKey (remove m i) p
    → Includes ids p
members_without i ids m h p k =
    let (differ, here) = HasKey-remove m i p k in
    elim (h p here) [ inl e ↦ absurd (differ e) | inr rest ↦ rest ]

-- The keys of both maps are members.
disjoint_or_meet :
    (ids : List Text) (a b : Dict Text Bool)
    → HasUniqueKeys a
    → HasUniqueKeys b
    → ((p : Text) → HasKey a p → Includes ids p)
    → ((p : Text) → HasKey b p → Includes ids p)
    → ((p : Text) × HasKey a p × HasKey b p) ⊎ (length a + length b ≤ length ids)
disjoint_or_meet [] [] [] ua ub ha hb = inr (omega arith)
disjoint_or_meet [] ((k, v) ∷ a) b ua ub ha hb = absurd (ha k (HasKey-head k v a))
disjoint_or_meet [] [] ((k, v) ∷ b) ua ub ha hb = absurd (hb k (HasKey-head k v b))
disjoint_or_meet (i ∷ ids) a b ua ub ha hb =
    elim (disjoint_or_meet ids (remove a i) (remove b i) (HasUniqueKeys-remove a i ua)
      (HasUniqueKeys-remove b i ub) (members_without i ids a ha) (members_without i ids b hb)) [
        | inl (p, ka, kb) ↦ inl (p, (HasKey-remove a i p ka).1, (HasKey-remove b i p kb).1)
        | inr few ↦ elim (Option-cases (get a i)) [
          | inl no_a ↦ inr (omega (arith, few, length_without a i no_a, length-remove b i ub))
          | inr (v, in_a) ↦ elim (Option-cases (get b i)) [
            | inl no_b ↦ inr (omega (arith, few, length_without b i no_b, length-remove a i ua))
            | inr (w, in_b) ↦ inl (i, λ e. cc (e, in_a), λ e. cc (e, in_b))
          ]
        ]
      ]

-- Two majorities of the members meet.
pub quorums_meet :
    (ids : List Text) (a b : Dict Text Bool)
    → HasUniqueKeys a
    → HasUniqueKeys b
    → ((p : Text) → HasKey a p → Includes ids p)
    → ((p : Text) → HasKey b p → Includes ids p)
    → length ids / 2 < length a
    → length ids / 2 < length b
    → (p : Text) × HasKey a p × HasKey b p
quorums_meet ids a b ua ub ha hb qa qb = elim (disjoint_or_meet ids a b ua ub ha hb) [
  | inl meet ↦ meet
  | inr few ↦ absurd (omega (arith, few, qa, qb))
]
