-- ===== src/ClusterClient/Tests.antt =====
-- internal/cluster/client.go: a client that is redirected to a leader it did not know.
use shard_zero.Prelude.{
  ◌<◌, ℕ, zero, suc, ◌++◌, get_or, ◌≡◌, refl, true, false, Option, none, some, List, [], ◌∷◌, Text,
  bytes, text_eq, take, drop, arith, done, if◌then◌else◌, ◌==◌,
}
use shard_zero.ClusterClient.{
  Url, Client, Network, answered, no_answer, addresses, knows, add, valid_origin, add_servers,
  trim_slashes, new, request,
}
use shard_zero.ClusterClient.Reaching.{IsDown, refuses, IsFinal, settles, request_reaches}
use shard_zero.ClusterClient.Retries.{Settles, request-Settles}
use shard_zero.ClusterClient.Starting.{new-IsTrusted}

abbrev parse : Text → Option Url
parse s =
    if text_eq (take 7 s) (bytes "http://")
    then some (record {
      scheme = bytes "http";
      host = drop 7 s;
      has_user = false;
      path = [];
      raw_query = [];
      fragment = [];
    })
    else none

abbrev seeds : List Text
seeds = bytes "http://a/" ∷ bytes "http://b" ∷ bytes "http://a" ∷ []

abbrev client : Client
client = record {
  servers = bytes "http://a" ∷ bytes "http://b" ∷ [];
  preferred = [];
  discovered = [];
}

built : new parse (λ s. s) seeds ≡ done client
unfolding new add_servers add knows valid_origin trim_slashes text_eq
built = refl

-- The first answer is a redirect to c, which then answers.
abbrev network : Network
network = record {
  makes = λ _ _. true;
  send = λ n _. if n == 0 then answered 307 [] (bytes "http://c") else answered 200 (bytes "ok") [];
  peers = λ _ _. none;
  ended = λ _. false;
  ended_after = λ _. false;
}

request-Settles_example :
    Settles parse client (request parse network (bytes "GET") (bytes "/v1/kv/x") client)
request-Settles_example =
    request-Settles parse network (bytes "GET") (bytes "/v1/kv/x") client
      (new-IsTrusted parse (λ s. s) seeds client built).0 (omega arith)

-- a does not answer, b does.
abbrev half_down : Network
half_down = record {
  makes = λ _ _. true;
  send = λ _ url.
      if text_eq (take 8 url) (bytes "http://a") then no_answer else answered 200 (bytes "ok") [];
  peers = λ _ _. none;
  ended = λ _. false;
  ended_after = λ _. false;
}

send-IsDown :
    (n j : ℕ)
    → j < 1
    → IsDown (half_down.send n (get_or (addresses client) j [] ++ bytes "/v1/kv/x"))
unfolding addresses text_eq
send-IsDown n zero h = refuses
send-IsDown n (suc j) h = absurd (omega (arith, h))

send-IsFinal :
    (n : ℕ) → IsFinal (half_down.send n (get_or (addresses client) 1 [] ++ bytes "/v1/kv/x"))
unfolding addresses text_eq
send-IsFinal n = settles 200 (bytes "ok") [] (omega arith) (omega arith) (omega arith)

request_reaches_example :
    ((request parse half_down (bytes "GET") (bytes "/v1/kv/x") client).2 ≡ none)
    × ((request parse half_down (bytes "GET") (bytes "/v1/kv/x") client).1.server
        ≡ get_or (addresses client) 1 [])
    × (location : Text) × (half_down.send 1 (get_or (addresses client) 1 [] ++ bytes "/v1/kv/x")
        ≡ answered
            (request parse half_down (bytes "GET") (bytes "/v1/kv/x") client).1.status_code
            (request parse half_down (bytes "GET") (bytes "/v1/kv/x") client).1.body
            location)
request_reaches_example =
    request_reaches parse half_down (bytes "GET") (bytes "/v1/kv/x") client (λ n s urls e u k o. cc)
      (λ _. refl) (λ _. refl) (λ _. refl) 1 (omega arith) send-IsDown send-IsFinal (omega arith)
