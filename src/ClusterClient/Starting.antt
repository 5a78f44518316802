-- ===== src/ClusterClient/Starting.antt =====
-- internal/cluster/client.go, New: the addresses that a client starts with.
use shard_zero.Prelude.{
  ◌<◌, ◌≡◌, inl, inr, refl, subst, Option, List, [], ◌∷◌, Text, length, ◌==◌, arith, Attempt, done,
  failed, Bool-cases,
}
use shard_zero.ClusterClient.{
  Url, Client, ClientError, knows, add, valid_origin, add_servers, some_server, new, trim_slashes,
}
use shard_zero.ClusterClient.Addresses.{IsTrusted, add-Learns}

module _ (parse : Text → Option Url) where
  add_servers-IsTrusted :
      (trim_space : Text → Text) (c d : Client) (servers : List Text)
      → IsTrusted parse c
      → add_servers parse trim_space c servers ≡ done d
      → IsTrusted parse d
  unfolding add_servers
  add_servers-IsTrusted trim_space c d [] h e = subst (IsTrusted parse) (done-injective c d e) h
    where
      done-injective :
          (c d : Client) → ◌≡◌ {A = Attempt Client ClientError} (done c) (done d) → c ≡ d
      done-injective c d e = cc
  add_servers-IsTrusted trim_space c d (s ∷ servers) h e =
      elim (Bool-cases (valid_origin parse (trim_slashes (trim_space s)))) [
        | inl origin ↦
            add_servers-IsTrusted trim_space (add c (trim_slashes (trim_space s))) d servers
              ((add-Learns parse c _ origin).trusted h) (rw (origin, add_servers) at e)
        | inr bad ↦ cc (rw (bad, add_servers) at e)
      ]

  some_server-done :
      (a : Attempt Client ClientError) (c : Client)
      → some_server parse a ≡ done c
      → (a ≡ done c) × (0 < length c.servers)
  some_server-done (failed e) c h = cc
  some_server-done (done d) c h = elim (Bool-cases (length d.servers == 0)) [
    | inl empty ↦ cc (rw empty at h)
    | inr some_left ↦ (rw some_left at h, ground (arith, some_left, h))
  ]

  -- A client that New returns has at least one address, each is the origin of an HTTP server, and none
  -- stands twice.
  pub new-IsTrusted :
      (trim_space : Text → Text) (servers : List Text) (c : Client)
      → new parse trim_space servers ≡ done c
      → IsTrusted parse c × (0 < length c.servers)
  unfolding new knows
  new-IsTrusted trim_space servers c h =
      let empty : Client = record { servers = []; preferred = []; discovered = [] } in
      let (built, some_left) = some_server-done (add_servers parse trim_space empty servers) c h in
      (
        add_servers-IsTrusted trim_space empty c servers
            (record { origins = λ t k. cc; unique = tt; preferred = inl refl }) built,
        some_left,
      )
