-- ===== src/ClusterClient/Reaching.antt =====
-- internal/cluster/client.go, Do: a live server is found.
use shard_zero.Prelude.{
  ℕ, zero, suc, ◌+◌, ◌-◌, ◌%◌, ◌<◌, ◌≡◌, ◌≢◌, inl, inr, refl, sym, ◌∙◌, ap, true, false, not, ◌||◌,
  Option, none, some, List, [], ◌∷◌, ◌++◌, Text, bytes, text_eq_iff, length, get_or, ltb, ◌==◌,
  arith, if◌then◌else◌, Bool-cases,
}
use shard_zero.Prelude.Dict.{text_key, read}
use native.Mathlib.Nat.{mod-eq_of_lt}
use shard_zero.ClusterClient.{
  Url, Client, ClientError, Network, Answer, no_answer, unreadable, answered, Response, knows, add,
  addresses, valid_origin, add_peers, learned, discover, Round, finished, again, retarget, move_on,
  weigh_answer, weigh, turn, attempts, request,
}
use shard_zero.ClusterClient.Addresses.{length-addresses}

-- An answer that sends the client on.
pub data IsDown : Answer → Type 0 where
  refuses : IsDown no_answer
  breaks : IsDown unreadable
  overloads : (body location : Text) → IsDown (answered 503 body location)

-- An answer that ends a request.
pub data IsFinal : Answer → Type 0 where
  settles :
      (status : ℕ) (body location : Text)
      → status ≢ 307
      → status ≢ 308
      → status ≢ 503
      → IsFinal (answered status body location)

module _ (parse : Text → Option Url) where
  -- The addresses of the second are those of the first, in the same order.
  record Stays (c d : Client) : Type 0 where
    servers : d.servers ≡ c.servers
    preferred : d.preferred ≡ c.preferred

  -- The peers that the network names are known, or no origins.
  abbrev pub Teaches : Network → List Text → Type 0
  Teaches net servers =
      (n : ℕ) (s : Text) (urls : List Text)
      → net.peers n s ≡ some urls
      → (u : Text) → knows urls u ≡ true
      → valid_origin parse u ≡ true
      → knows servers u ≡ true

  add_peers-Stays :
      (c : Client) (urls : List Text)
      → ((u : Text) → knows urls u ≡ true → valid_origin parse u ≡ true → knows c.servers u ≡ true)
      → add_peers parse c urls ≡ c
  unfolding add_peers add knows
  add_peers-Stays c [] h = refl
  add_peers-Stays c (u ∷ urls) h = elim (Bool-cases (valid_origin parse u)) [
    | inr bad ↦ rw bad (add_peers-Stays c urls (λ v k o. h v (ground (arith, k)) o))
    | inl good ↦
        let known : knows c.servers u ≡ true = h u (ground (arith, text_eq_iff u u)) good in
        rw (good, known) (add_peers-Stays c urls (λ v k o. h v (ground (arith, k)) o))
  ]

  learned-Stays :
      (c : Client) (server : Text) (o : Option (List Text))
      → ((urls : List Text)
          → o ≡ some urls
          → (u : Text) → knows urls u ≡ true
          → valid_origin parse u ≡ true
          → knows c.servers u ≡ true)
      → Stays c (learned parse c server o)
  learned-Stays c server none h = record { servers = refl; preferred = refl }
  learned-Stays c server (some urls) h =
      rw (add_peers-Stays c urls (h urls refl)) (record { servers = refl; preferred = refl })

  discover-Stays :
      (net : Network) (n : ℕ) (c : Client) (server : Text)
      → Teaches net c.servers
      → Stays c (discover parse net n c server)
  unfolding discover
  discover-Stays net n c server h =
      elim (Bool-cases (
        read c.discovered server false
        || not (net.makes (bytes "GET") (server ++ bytes "/v1/status")))) [
          | inl skip ↦ rw skip (record { servers = refl; preferred = refl })
          | inr go ↦
              rw go (learned-Stays c server (net.peers n server) (λ urls e. h n server urls e))
        ]

  addresses-Stays : (c d : Client) → Stays c d → addresses d ≡ addresses c
  unfolding addresses
  addresses-Stays c d s = rw (s.preferred, s.servers) refl

  -- The client asks its k-th address.
  record Asks (c : Client) (k : ℕ) (r : Round) : Type 0 where
    stays : Stays c r.client
    target : r.target ≡ get_or (addresses c) k []
    cursor : r.cursor ≡ k

  module _ (net : Network) (method path : Text) (c : Client) (teaches : Teaches net c.servers) where
    move_on-Asks :
        (n k : ℕ) (r : Round)
        → net.ended_after n ≡ false
        → Asks c k r
        → suc k < length c.servers
        → (next : Round) × (move_on parse net n r none ≡ again next) × Asks c (suc k) next
    unfolding move_on retarget
    move_on-Asks n k r early asks more =
        let d = discover parse net n r.client r.target in
        let now = discover-Stays net n r.client r.target (rw asks.stays.servers teaches) in
        let stays : Stays c d = record {
          servers = now.servers ∙ asks.stays.servers;
          preferred = now.preferred ∙ asks.stays.preferred;
        } in
        let same = addresses-Stays c d stays in
        let size : length (addresses d) ≡ length c.servers =
          length-addresses d ∙ ap length stays.servers in
        let turned : (r.cursor + 1) % length (addresses d) ≡ suc k =
          rw (size, asks.cursor) (mod-eq_of_lt (omega (arith, more)) ∙ omega arith) in
        (
          record r {
            client = d;
            target = get_or (addresses d) ((r.cursor + 1) % length (addresses d)) [];
            cursor = r.cursor + 1;
          },
          rw early refl,
          record {
            stays = stays;
            target =
                ap (λ x. get_or (addresses d) x []) turned ∙ ap (λ ts. get_or ts (suc k) []) same;
            cursor = omega (arith, asks.cursor);
          },
        )

    module _ (makes : (url : Text) → net.makes method url ≡ true)
        (open_before : (n : ℕ) → net.ended n ≡ false)
        (open_after : (n : ℕ) → net.ended_after n ≡ false) where
      weigh_down :
          (n k : ℕ) (r : Round) (a : Answer)
          → IsDown a
          → Asks c k r
          → suc k < length c.servers
          → (next : Round) × (weigh parse net n r a ≡ again next) × Asks c (suc k) next
      unfolding weigh weigh_answer
      weigh_down n k r _ refuses asks more = move_on-Asks n k r (open_after n) asks more
      weigh_down n k r _ breaks asks more = move_on-Asks n k r (open_after n) asks more
      weigh_down n k r _ (overloads body location) asks more =
          move_on-Asks n k
            (record r { response = record { status_code = 503; body = body; server = r.target } })
            (open_after n)
            (record { stays = asks.stays; target = asks.target; cursor = asks.cursor }) more

      weigh_final :
          (n : ℕ) (r : Round) (a : Answer)
          → IsFinal a
          → (d : Client) × (status : ℕ) × (body location : Text) × (a
              ≡ answered status body location)
            × (weigh parse net n r a
                ≡ finished d (record { status_code = status; body = body; server = r.target }) none)
      unfolding weigh weigh_answer
      weigh_final n r _ (settles status body location x y z) =
          let moved : (status == 307 || status == 308) ≡ false = ground (arith, x, y) in
          let busy : (status == 503) ≡ false = ground (arith, z) in
          let d = record (r.client) { preferred = r.target } in
          (
            (if ltb status 300 then discover parse net n d r.target else d),
            status,
            body,
            location,
            refl,
            rw (moved, busy) refl,
          )

      turn_open :
          (n : ℕ) (r : Round)
          → turn parse net method path n r ≡ weigh parse net n r (net.send n (r.target ++ path))
      unfolding turn
      turn_open n r = rw (open_before n, makes (r.target ++ path)) refl

      attempts_end :
          (left : ℕ) (r : Round) (d : Client) (response : Response)
          → turn parse net method path (39 - left) r ≡ finished d response none
          → attempts parse net method path (suc left) r ≡ (d, response, none)
      unfolding attempts
      attempts_end left r d response h = rw (h, attempts) refl

      attempts_step :
          (left : ℕ) (r next : Round)
          → turn parse net method path (39 - left) r ≡ again next
          → attempts parse net method path (suc left) r ≡ attempts parse net method path left next
      unfolding attempts
      attempts_step left r next h = rw (h, attempts) refl

      module _ (i : ℕ) (inside : i < length c.servers)
          (down : (n j : ℕ) → j < i → IsDown (net.send n (get_or (addresses c) j [] ++ path)))
          (live : (n : ℕ) → IsFinal (net.send n (get_or (addresses c) i [] ++ path))) where
        -- The result of a run that ends with the answer that the i-th address gives to the i-th request
        -- (both counted from 0): no error, and that answer's status and body under that address.
        abbrev pub Answers : Client × Response × Option ClientError → Type 0
        Answers o =
            (o.2 ≡ none)
            × (o.1.server ≡ get_or (addresses c) i [])
            × (location : Text) × (net.send i (get_or (addresses c) i [] ++ path)
                ≡ answered o.1.status_code o.1.body location)

        attempts-Answers :
            (left k further : ℕ) (r : Round)
            → k + further ≡ i
            → further < left
            → left + k ≡ 40
            → Asks c k r
            → Answers (attempts parse net method path left r)
        attempts-Answers zero k further r at_i enough turns asks = absurd (omega (arith, enough))
        attempts-Answers (suc left) k zero r at_i enough turns asks =
            let here : k ≡ i = omega (arith, at_i) in
            let final : IsFinal (net.send (39 - left) (r.target ++ path)) =
              rw (asks.target, here) (live (39 - left)) in
            let turn_now : 39 - left ≡ i = omega (arith, turns, at_i) in
            let (d, status, body, location, same, ends) =
              weigh_final (39 - left) r (net.send (39 - left) (r.target ++ path)) final in
            let address : r.target ≡ get_or (addresses c) i [] =
              asks.target ∙ ap (λ x. get_or (addresses c) x []) here in
            rw (attempts_end left r d _ (turn_open (39 - left) r ∙ ends)) (
              refl,
              address,
              location,
              ap (λ t. net.send i (t ++ path)) (sym address)
                  ∙ ap (λ x. net.send x (r.target ++ path)) (sym turn_now)
                  ∙ same,
            )
        attempts-Answers (suc left) k (suc further) r at_i enough turns asks =
            let refused : IsDown (net.send (39 - left) (r.target ++ path)) =
              rw asks.target (down (39 - left) k (omega (arith, at_i))) in
            let (next, goes, then_asks) =
              weigh_down (39 - left) k r (net.send (39 - left) (r.target ++ path)) refused asks
                (omega (arith, inside, at_i)) in
            rw (attempts_step left r next (turn_open (39 - left) r ∙ goes)) (
              attempts-Answers left (suc k) further next (omega (arith, at_i))
                (omega (arith, enough)) (omega (arith, turns)) then_asks)

        -- Do finds a live server: if the context does not end, requests can be made, the addresses that
        -- the servers name are known already, those before the i-th, below 40, in the client's order
        -- give no answer or 503, and the i-th always gives an answer that is no redirect and no 503, then
        -- Do returns no error and, under the i-th address, the status and body that this address answers to
        -- the request that follows one request to each of those before it.
        pub request_reaches : i < 40 → Answers (request parse net method path c)
        unfolding request
        request_reaches few = attempts-Answers 40 0 i _ (omega arith) few (omega arith) (record {
          stays = record { servers = refl; preferred = refl };
          target = refl;
          cursor = refl;
        })
