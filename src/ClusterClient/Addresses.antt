-- ===== src/ClusterClient/Addresses.antt =====
-- internal/cluster/client.go: the addresses that a client keeps.
use shard_zero.Prelude.{
  ℕ, zero, suc, ◌<◌, ◌≡◌, ◌⊎◌, inl, inr, refl, sym, ◌∙◌, true, false, not, ◌||◌, Option, none, some,
  List, [], ◌∷◌, ◌++◌, Text, bytes, text_eq, text_eq_iff, text_eq_refl, length, get_or, arith,
  Bool-cases, Option-cases,
}
use shard_zero.Prelude.Dict.{text_key, read}
use shard_zero.ClusterClient.{
  Url, Client, Network, knows, add, swap_in, bring_first, addresses, valid_origin, add_peers,
  learned, discover,
}

-- No address stands twice in the list.
abbrev pub IsUnique : List Text → Type 0
IsUnique [] = Unit
IsUnique (s ∷ servers) = (knows servers s ≡ false) × IsUnique servers

knows-append :
    (servers : List Text) (s t : Text)
    → knows (servers ++ (s ∷ [])) t ≡ (knows servers t || text_eq s t)
unfolding knows
knows-append [] s t = ground arith
knows-append (u ∷ servers) s t = ground (arith, knows-append servers s t)

IsUnique-append :
    (servers : List Text) (s : Text)
    → knows servers s ≡ false
    → IsUnique servers
    → IsUnique (servers ++ (s ∷ []))
unfolding knows
IsUnique-append [] s k u = (refl, tt)
IsUnique-append (t ∷ servers) s k (fresh, u) = (
  ground (arith, knows-append servers s t, k, fresh, text_eq_iff s t, text_eq_iff t s),
  IsUnique-append servers s (ground (arith, k)) u,
)

-- The list with a preferred address brought first has the same addresses.
knows-swap_in :
    (s by : Text) (ts us : List Text) (t : Text)
    → swap_in s by ts ≡ some us
    → (knows us t || text_eq s t) ≡ (knows ts t || text_eq by t)
unfolding swap_in knows
knows-swap_in s by [] us t h = cc
knows-swap_in s by (v ∷ ts) us t h = elim (Bool-cases (text_eq v s)) [
  | inl here ↦ ground (arith, h, here, text_eq_iff v s)
  | inr on ↦ elim (Option-cases (swap_in s by ts)) [
    | inl gone ↦ cc (rw (on, gone, swap_in) at h)
    | inr (ws, found) ↦ ground (arith, knows-swap_in s by ts ws t found, h, on, found)
  ]
]

knows-bring_first : (s : Text) (ts : List Text) (t : Text) → knows (bring_first s ts) t ≡ knows ts t
unfolding bring_first knows
knows-bring_first s [] t = refl
knows-bring_first s (u ∷ ts) t = elim (Bool-cases (text_eq u s)) [
  | inl here ↦ rw here refl
  | inr on ↦ rw on (elim (Option-cases (swap_in s u ts)) [
    | inl gone ↦ rw gone refl
    | inr (us, found) ↦ rw found (ground (arith, knows-swap_in s u ts us t found))
  ])
]

length-swap_in :
    (s by : Text) (ts us : List Text) → swap_in s by ts ≡ some us → length us ≡ length ts
unfolding swap_in
length-swap_in s by [] us h = cc
length-swap_in s by (v ∷ ts) us h = elim (Bool-cases (text_eq v s)) [
  | inl here ↦ ground (arith, h, here)
  | inr on ↦ elim (Option-cases (swap_in s by ts)) [
    | inl gone ↦ cc (rw (on, gone, swap_in) at h)
    | inr (ws, found) ↦ ground (arith, length-swap_in s by ts ws found, h, on, found)
  ]
]

length-bring_first : (s : Text) (ts : List Text) → length (bring_first s ts) ≡ length ts
unfolding bring_first
length-bring_first s [] = refl
length-bring_first s (u ∷ ts) = elim (Bool-cases (text_eq u s)) [
  | inl here ↦ rw here refl
  | inr on ↦ rw on (elim (Option-cases (swap_in s u ts)) [
    | inl gone ↦ rw gone refl
    | inr (us, found) ↦ rw found (omega (arith, length-swap_in s u ts us found))
  ])
]

pub knows-addresses : (c : Client) (t : Text) → knows (addresses c) t ≡ knows c.servers t
unfolding addresses
knows-addresses c t = elim (Bool-cases (text_eq c.preferred [])) [
  | inl free ↦ rw free refl
  | inr chosen ↦ rw chosen (knows-bring_first c.preferred c.servers t)
]

pub length-addresses : (c : Client) → length (addresses c) ≡ length c.servers
unfolding addresses
length-addresses c = elim (Bool-cases (text_eq c.preferred [])) [
  | inl free ↦ rw free refl
  | inr chosen ↦ rw chosen (length-bring_first c.preferred c.servers)
]

pub knows-get_or :
    (ts : List Text) (i : ℕ) (d : Text) → i < length ts → knows ts (get_or ts i d) ≡ true
unfolding knows
knows-get_or [] i d h = absurd (omega (arith, h))
knows-get_or (t ∷ ts) zero d h = ground (arith, text_eq_refl t)
knows-get_or (t ∷ ts) (suc i) d h = ground (arith, knows-get_or ts i d (omega (arith, h)))

-- The addresses that are known stay known.
abbrev pub Grows : Client → Client → Type 0
Grows c d = (t : Text) → knows c.servers t ≡ true → knows d.servers t ≡ true

module _ (parse : Text → Option Url) where
  -- Each address is an origin, none stands twice, and the preferred one is one of them or none.
  pub record IsTrusted (c : Client) : Type 0 where
    pub origins : (t : Text) → knows c.servers t ≡ true → valid_origin parse t ≡ true
    pub unique : IsUnique c.servers
    pub preferred : (c.preferred ≡ []) ⊎ (knows c.servers c.preferred ≡ true)

  -- What a change of the addresses does.
  pub record Learns (c d : Client) : Type 0 where
    pub trusted : IsTrusted c → IsTrusted d
    pub grows : Grows c d
    pub preferred : d.preferred ≡ c.preferred

  pub Learns-refl : (c : Client) → Learns c c
  Learns-refl c = record { trusted = λ t. t; grows = λ t k. k; preferred = refl }

  pub Learns-trans : {c d e : Client} → Learns c d → Learns d e → Learns c e
  Learns-trans p q = record {
    trusted = λ t. q.trusted (p.trusted t);
    grows = λ t k. q.grows t (p.grows t k);
    preferred = q.preferred ∙ p.preferred;
  }

  append-Learns :
      (c : Client) (s : Text)
      → valid_origin parse s ≡ true
      → knows c.servers s ≡ false
      → Learns c (record c { servers = c.servers ++ (s ∷ []) })
  append-Learns c s origin fresh =
      let grows : Grows c (record c { servers = c.servers ++ (s ∷ []) }) =
        λ t k. ground (arith, knows-append c.servers s t, k) in
      record {
        trusted = λ h. record {
          origins = λ t k. elim (Bool-cases (text_eq s t)) [
            | inl e ↦ rw (sym ((text_eq_iff s t).0 e)) origin
            | inr other ↦ h.origins t (ground (arith, knows-append c.servers s t, k, other))
          ];
          unique = IsUnique-append c.servers s fresh h.unique;
          preferred = elim h.preferred [ inl e ↦ inl e | inr k ↦ inr (grows c.preferred k) ];
        };
        grows = grows;
        preferred = refl;
      }

  pub add-Learns : (c : Client) (s : Text) → valid_origin parse s ≡ true → Learns c (add c s)
  unfolding add
  add-Learns c s origin = elim (Bool-cases (knows c.servers s)) [
    | inl known ↦ rw known (Learns-refl c)
    | inr fresh ↦ rw fresh (append-Learns c s origin fresh)
  ]

  pub knows-add : (c : Client) (s : Text) → knows (add c s).servers s ≡ true
  unfolding add
  knows-add c s = elim (Bool-cases (knows c.servers s)) [
    | inl known ↦ rw known known
    | inr fresh ↦ rw fresh (ground (arith, knows-append c.servers s s, text_eq_refl s))
  ]

  add_peers-Learns : (c : Client) (urls : List Text) → Learns c (add_peers parse c urls)
  unfolding add_peers
  add_peers-Learns c [] = Learns-refl c
  add_peers-Learns c (url ∷ urls) = elim (Bool-cases (valid_origin parse url)) [
    | inl origin ↦
        rw origin (Learns-trans (add-Learns c url origin) (add_peers-Learns (add c url) urls))
    | inr bad ↦ rw bad (add_peers-Learns c urls)
  ]

  learned-Learns :
      (c : Client) (server : Text) (o : Option (List Text)) → Learns c (learned parse c server o)
  learned-Learns c server none = Learns-refl c
  learned-Learns c server (some urls) =
      let more = add_peers-Learns c urls in
      record {
        trusted = λ h.
            let t = more.trusted h in
            record { origins = t.origins; unique = t.unique; preferred = t.preferred };
        grows = more.grows;
        preferred = more.preferred;
      }

  pub discover-Learns :
      (net : Network) (n : ℕ) (c : Client) (server : Text)
      → Learns c (discover parse net n c server)
  unfolding discover
  discover-Learns net n c server =
      elim (Bool-cases (
        read c.discovered server false
        || not (net.makes (bytes "GET") (server ++ bytes "/v1/status")))) [
          | inl skip ↦ rw skip (Learns-refl c)
          | inr go ↦ rw go (learned-Learns c server (net.peers n server))
        ]
