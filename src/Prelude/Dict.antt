-- ===== src/Prelude/Dict.antt =====
-- A Go map. `put` keeps the place of a key that is there, so keys stay unique; nothing in the
-- program depends on the order of iteration.
use Prim.Native.Nat.{ℕ}
use mathlib.Core.Path.{◌≡◌, refl, sym, ap}
use mathlib.Core.Logic.{◌≢◌, ◌↔◌, ◌⊎◌, inl, inr}
use mathlib.Core.Bool.{Bool, true}
use mathlib.Core.Option.{Option, none, some}
use mathlib.Core.List.{List, [], ◌∷◌}
use native.Mathlib.Omega.{arith}
use shard_zero.Prelude.Tests.{if◌then◌else◌, ◌==◌, ==_iff}
use shard_zero.Prelude.Lists.{All, Includes}
use shard_zero.Prelude.Strings.{Text, text_eq, text_eq_iff}

-- What a map needs of its keys.
pub record Key (K : Type 0) : Type 0 where
  pub eqb : K → K → Bool
  pub eqb_iff : (a b : K) → (eqb a b ≡ true) ↔ (a ≡ b)

instance abbrev pub nat_key : Key ℕ
nat_key = record { eqb = ◌==◌; eqb_iff = ==_iff }

instance abbrev pub text_key : Key Text
text_key = record { eqb = text_eq; eqb_iff = text_eq_iff }

abbrev pub Dict : Type 0 → Type 0 → Type 0
Dict K V = List (K × V)

pub eqb_refl : {K : Type 0} ⦃e : Key K⦄ (k : K) → e.eqb k k ≡ true
eqb_refl ⦃e⦄ k = (e.eqb_iff k k).1 refl

module _ {K V : Type 0} ⦃e : Key K⦄ where
  -- `v, ok := m[k]`
  unfoldable pub get : Dict K V → K → Option V
  get [] k = none
  get ((j, v) ∷ m) k = if e.eqb j k then some v else get m k

  -- `m[k] = v`
  unfoldable pub put : Dict K V → K → V → Dict K V
  put [] k v = (k, v) ∷ []
  put ((j, w) ∷ m) k v = if e.eqb j k then (j, v) ∷ m else (j, w) ∷ put m k v

  -- `delete(m, k)`
  unfoldable pub remove : Dict K V → K → Dict K V
  remove [] k = []
  remove ((j, w) ∷ m) k = let rest = remove m k in if e.eqb j k then rest else (j, w) ∷ rest

  -- `m[k]` where a missing key reads as the zero value
  unfoldable pub read : Dict K V → K → V → V
  unfolding get
  read m k zero_value = elim (get m k) [ none ↦ zero_value | some v ↦ v ]

  pub get-put :
      (m : Dict K V) (k j : K) (v : V) → get (put m k v) j ≡ (if e.eqb k j then some v else get m j)
  unfolding get put
  get-put [] k j v = refl
  get-put ((i, w) ∷ m) k j v =
      ground (arith, get-put m k j v, e.eqb_iff i k, e.eqb_iff i j, e.eqb_iff k j)

  pub get-remove :
      (m : Dict K V) (k j : K) → get (remove m k) j ≡ (if e.eqb k j then none else get m j)
  unfolding get remove
  get-remove [] k j = ground arith
  get-remove ((i, w) ∷ m) k j =
      ground (arith, get-remove m k j, e.eqb_iff i k, e.eqb_iff i j, e.eqb_iff k j)

  pub get-put_self : (m : Dict K V) (k : K) (v : V) → get (put m k v) k ≡ some v
  get-put_self m k v = rw (get-put m k k v, eqb_refl k)

  -- each key stands once
  abbrev pub HasUniqueKeys : Dict K V → Type 0
  HasUniqueKeys [] = Unit
  HasUniqueKeys ((k, v) ∷ m) = (get m k ≡ none) × HasUniqueKeys m

  pub HasUniqueKeys-put :
      (m : Dict K V) (k : K) (v : V) → HasUniqueKeys m → HasUniqueKeys (put m k v)
  unfolding get put
  HasUniqueKeys-put [] k v u = (refl, tt)
  HasUniqueKeys-put ((j, w) ∷ m) k v u =
      ground (arith, HasUniqueKeys-put m k v, get-put m k j v, e.eqb_iff j k, e.eqb_iff k j)

  pub HasUniqueKeys-remove : (m : Dict K V) (k : K) → HasUniqueKeys m → HasUniqueKeys (remove m k)
  unfolding get remove
  HasUniqueKeys-remove [] k u = tt
  HasUniqueKeys-remove ((j, w) ∷ m) k u =
      ground (arith, HasUniqueKeys-remove m k, get-remove m k j, e.eqb_iff j k, e.eqb_iff k j)

  -- a property of all entries
  module _ (P : K → V → Type 0) where
    abbrev pub AllEntries : Dict K V → Type 0
    AllEntries = All (λ p. P p.0 p.1)

    pub AllEntries-put :
        (m : Dict K V) (k : K) (v : V) → P k v → AllEntries m → AllEntries (put m k v)
    unfolding put
    AllEntries-put [] k v p h = (p, tt)
    AllEntries-put ((j, w) ∷ m) k v p h = ground (arith, AllEntries-put m k v, e.eqb_iff j k)

    pub AllEntries-remove : (m : Dict K V) (k : K) → AllEntries m → AllEntries (remove m k)
    unfolding remove
    AllEntries-remove [] k h = tt
    AllEntries-remove ((j, w) ∷ m) k h = ground (arith, AllEntries-remove m k)

  -- an entry that stands in the map
  pub Includes-get : (m : Dict K V) (k : K) (v : V) → get m k ≡ some v → Includes m (k, v)
  unfolding get
  Includes-get [] k v g = cc
  Includes-get ((j, w) ∷ m) k v g = ground (arith, e.eqb_iff j k, Includes-get m k v)

  pub Includes-absent :
      (m : Dict K V) (k j : K) (v : V) → get m k ≡ none → Includes m (j, v) → j ≢ k
  unfolding get
  Includes-absent [] k j v g h = absurd h
  Includes-absent ((i, w) ∷ m) k j v g (inl h) = ground (arith, e.eqb_iff i k, h)
  Includes-absent ((i, w) ∷ m) k j v g (inr h) =
      ground (arith, e.eqb_iff i k, Includes-absent m k j v)

  pub Includes-remove :
      (m : Dict K V) (k j : K) (v : V) → Includes (remove m k) (j, v) → Includes m (j, v) × (j ≢ k)
  unfolding remove
  Includes-remove [] k j v h = absurd h
  Includes-remove ((i, w) ∷ m) k j v h = ground (arith, e.eqb_iff i k, Includes-remove m k j v)

  pub Includes-put :
      (m : Dict K V) (k j : K) (v w : V)
      → Includes (put m k v) (j, w)
      → ((j ≡ k) × (w ≡ v)) ⊎ Includes m (j, w)
  unfolding put
  Includes-put [] k j v w (inl h) =
      inl (sym (ap (λ (p : K × V). p.0) h), sym (ap (λ (p : K × V). p.1) h))
  Includes-put [] k j v w (inr h) = absurd h
  Includes-put ((i, u) ∷ m) k j v w h = ground (arith, e.eqb_iff i k, Includes-put m k j v w)
