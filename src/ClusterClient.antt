-- ===== src/ClusterClient.antt =====
-- internal/cluster/client.go: the addresses that a client knows, and its bounded retries. What
-- `url.Parse` and `strings.TrimSpace` give is a parameter, as is what the network answers; an error
-- of http.Client, of the body or of the context is such an answer.
pub mod Addresses
pub mod Reaching
pub mod Retries
pub mod Starting
mod Tests
use shard_zero.Prelude.{
  ℕ, zero, suc, ◌+◌, ◌-◌, ◌*◌, ◌%◌, Bool, true, false, ◌&&◌, ◌||◌, not, Option, none, some, List,
  [], ◌∷◌, ◌++◌, Text, bytes, text_eq, length, get_or, ltb, ◌==◌, if◌then◌else◌, Attempt, done,
  failed,
}
use shard_zero.Prelude.Dict.{Dict, text_key, put, read}

pub record Url : Type 0 where
  pub scheme : Text
  pub host : Text
  pub has_user : Bool
  pub path : Text
  pub raw_query : Text
  pub fragment : Text

pub record Response : Type 0 where
  pub status_code : ℕ
  pub body : Text
  pub server : Text

pub record Client : Type 0 where
  pub servers : List Text
  pub preferred : Text
  pub discovered : Dict Text Bool

pub data ClientError : Type 0 where
  invalid_server : Text → ClientError
  no_servers bad_request deadline : ClientError
  retry_limit : ClientError

-- What came of a request: an error, a body that could not be read, or an answer with its Location.
pub data Answer : Type 0 where
  no_answer unreadable : Answer
  answered : ℕ → Text → Text → Answer

pub record Network : Type 0 where
  -- whether a request can be made of the method and the URL
  pub makes : Text → Text → Bool
  -- what the n-th attempt gets from a URL
  pub send : ℕ → Text → Answer
  -- the client URLs in the n-th answer to a request for the status, if it could be read
  pub peers : ℕ → Text → Option (List Text)
  -- whether the context has ended at the n-th attempt, before it and after its pause
  pub ended : ℕ → Bool
  pub ended_after : ℕ → Bool

-- `strings.TrimRight(s, "/")`
unfoldable pub trim_slashes : Text → Text
trim_slashes [] = []
trim_slashes (c ∷ s) =
    let rest = trim_slashes s in if c == 47 && text_eq rest [] then [] else c ∷ rest

unfoldable pub knows : List Text → Text → Bool
knows [] server = false
knows (s ∷ servers) server = text_eq s server || knows servers server

-- `add`
unfoldable pub add : Client → Text → Client
unfolding knows
add c server =
    if knows c.servers server then c else record c { servers = c.servers ++ (server ∷ []) }

-- A list with the first occurrence of a text replaced.
unfoldable pub swap_in : Text → Text → List Text → Option (List Text)
swap_in s by [] = none
swap_in s by (t ∷ ts) =
    if text_eq t s
    then some (by ∷ ts)
    else elim (swap_in s by ts) [ none ↦ none | some us ↦ some (t ∷ us) ]

-- the loop of `addresses`
unfoldable pub bring_first : Text → List Text → List Text
unfolding swap_in
bring_first s [] = []
bring_first s (t ∷ ts) =
    if text_eq t s then t ∷ ts else elim (swap_in s t ts) [ none ↦ t ∷ ts | some us ↦ s ∷ us ]

-- `addresses`
unfoldable pub addresses : Client → List Text
unfolding bring_first
addresses c = if text_eq c.preferred [] then c.servers else bring_first c.preferred c.servers

-- The variables of the loop of `Do`.
pub record Round : Type 0 where
  pub client : Client
  pub response : Response
  pub target : Text
  pub cursor : ℕ

-- The end of `Do`, or its next round.
pub data Turn : Type 0 where
  finished : Client → Response → Option ClientError → Turn
  again : Round → Turn

module _ (parse : Text → Option Url) where
  -- `validOrigin`
  unfoldable pub valid_origin : Text → Bool
  valid_origin server = elim (parse server) [
    | none ↦ false
    | some u ↦
        (text_eq u.scheme (bytes "http") || text_eq u.scheme (bytes "https"))
        && not (text_eq u.host [])
        && not u.has_user
        && text_eq u.path []
        && text_eq u.raw_query []
        && text_eq u.fragment []
  ]

  -- the loop of `New`
  unfoldable pub add_servers : (Text → Text) → Client → List Text → Attempt Client ClientError
  unfolding add valid_origin trim_slashes
  add_servers trim_space c [] = done c
  add_servers trim_space c (server ∷ servers) =
      let server = trim_slashes (trim_space server) in
      let rest = add_servers trim_space (add c server) servers in
      if not (valid_origin server) then failed (invalid_server server) else rest

  abbrev pub some_server : Attempt Client ClientError → Attempt Client ClientError
  some_server (failed e) = failed e
  some_server (done c) = if length c.servers == 0 then failed no_servers else done c

  -- `New`
  unfoldable pub new : (Text → Text) → List Text → Attempt Client ClientError
  unfolding add_servers
  new trim_space servers =
      some_server
        (add_servers trim_space (record { servers = []; preferred = []; discovered = [] }) servers)

  -- the loop of `discover`
  unfoldable pub add_peers : Client → List Text → Client
  unfolding add valid_origin
  add_peers c [] = c
  add_peers c (url ∷ urls) = add_peers (if valid_origin url then add c url else c) urls

  abbrev pub learned : Client → Text → Option (List Text) → Client
  learned c server none = c
  learned c server (some urls) =
      let c = add_peers c urls in record c { discovered = put c.discovered server true }

  -- `discover`, in the n-th attempt
  unfoldable pub discover : Network → ℕ → Client → Text → Client
  unfolding add_peers
  discover net n c server =
      if read c.discovered server false
        || not (net.makes (bytes "GET") (server ++ bytes "/v1/status"))
      then c
      else learned c server (net.peers n server)

  -- `Location` as an origin, if it is one
  unfoldable pub redirect_origin : Text → Option Text
  unfolding valid_origin
  redirect_origin location = elim (parse location) [
    | none ↦ none
    | some u ↦
        let origin = u.scheme ++ (bytes "://" ++ u.host) in
        if valid_origin origin then some origin else none
  ]

  -- Where to go after the n-th attempt.
  unfoldable pub retarget : ℕ → Round → Option Text → Round
  unfolding addresses
  retarget n r redirect =
      let next = addresses r.client in
      let stay = record r {
        target = get_or next ((r.cursor + 1) % length next) [];
        cursor = r.cursor + 1;
      } in
      elim redirect [
        | none ↦ stay
        | some origin ↦
            if not (text_eq origin r.target) && n % 2 == 0
            then record r { target = origin }
            else stay
      ]

  -- An attempt with no result.
  unfoldable pub move_on : Network → ℕ → Round → Option Text → Turn
  unfolding discover retarget
  move_on net n r redirect =
      let r = retarget n (record r { client = discover net n r.client r.target }) redirect in
      if net.ended_after n then finished r.client r.response (some deadline) else again r

  abbrev pub follow : Client → Option Text → Client
  follow c none = c
  follow c (some origin) = add c origin

  -- An answer that could be read.
  unfoldable pub weigh_answer : Network → ℕ → Round → Response → Text → Turn
  unfolding move_on redirect_origin discover add
  weigh_answer net n r response location =
      if response.status_code == 307 || response.status_code == 308
      then move_on net n
          (record r { response = response; client = follow r.client (redirect_origin location) })
          (redirect_origin location)
      else if response.status_code == 503
      then move_on net n (record r { response = response }) none
      else (let c = record (r.client) { preferred = r.target } in
          finished (if ltb response.status_code 300 then discover net n c r.target else c) response
            none)

  unfoldable pub weigh : Network → ℕ → Round → Answer → Turn
  unfolding weigh_answer move_on
  weigh net n r no_answer = move_on net n r none
  weigh net n r unreadable = move_on net n r none
  weigh net n r (answered status body location) =
      weigh_answer net n r (record { status_code = status; body = body; server = r.target })
        location

  -- The n-th attempt.
  unfoldable pub turn : Network → Text → Text → ℕ → Round → Turn
  unfolding weigh
  turn net method path n r =
      if net.ended n
      then finished r.client r.response (some deadline)
      else if not (net.makes method (r.target ++ path))
      then finished r.client r.response (some bad_request)
      else weigh net n r (net.send n (r.target ++ path))

  -- the loop of `Do`, with the attempts that are left of its 40
  unfoldable pub attempts :
      Network → Text → Text → ℕ → Round → Client × Response × Option ClientError
  unfolding turn
  attempts net method path zero r = (r.client, r.response, some retry_limit)
  attempts net method path (suc left) r = elim (turn net method path (39 - left) r) [
    | finished c response e ↦ (c, response, e)
    | again r ↦ attempts net method path left r
  ]

  -- `Do`
  unfoldable pub request : Network → Text → Text → Client → Client × Response × Option ClientError
  unfolding attempts addresses
  request net method path c = attempts net method path 40 (record {
    client = c;
    response = record { status_code = 0; body = []; server = [] };
    target = get_or (addresses c) 0 [];
    cursor = 0;
  })
