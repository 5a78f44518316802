-- ===== src/ClusterClient/Retries.antt =====
-- internal/cluster/client.go, Do: which addresses a client asks, and what it returns.
use shard_zero.Prelude.{
  ℕ, zero, suc, ◌+◌, ◌-◌, ◌%◌, ◌<◌, ◌≡◌, ◌≢◌, ◌⊎◌, inl, inr, refl, sym, ◌∙◌, ap, subst, true, not,
  ◌||◌, ◌&&◌, Option, none, some, List, [], ◌∷◌, ◌++◌, Text, bytes, text_eq, length, get_or, ltb,
  ◌==◌, arith, if◌then◌else◌, Bool-cases,
}
use native.Mathlib.Nat.{mod-lt}
use shard_zero.ClusterClient.{
  Url, Client, ClientError, bad_request, deadline, retry_limit, Network, Answer, no_answer,
  unreadable, answered, Response, knows, add, addresses, valid_origin, discover, redirect_origin,
  Round, Turn, finished, again, retarget, move_on, follow, weigh_answer, weigh, turn, attempts,
  request,
}
use shard_zero.ClusterClient.Addresses.{
  IsTrusted, Learns, Learns-refl, Learns-trans, Grows, add-Learns, knows-add, discover-Learns,
  knows-addresses, length-addresses, knows-get_or,
}

module _ (parse : Text → Option Url) where
  -- The answer is one of a known address, or there was none.
  abbrev pub FromKnown : Client → Response → Type 0
  FromKnown c response = (response.server ≡ []) ⊎ (knows c.servers response.server ≡ true)

  -- What a client is between two attempts.
  record IsGood (r : Round) : Type 0 where
    trusted : IsTrusted parse r.client
    target : knows r.client.servers r.target ≡ true
    answer : FromKnown r.client r.response

  -- A final answer, of the address that is preferred from then on; or an error, and the preferred
  -- address is the one before.
  pub data Verdict (c d : Client) (response : Response) : Option ClientError → Type 0 where
    settles :
        response.status_code ≢ 307
        → response.status_code ≢ 308
        → response.status_code ≢ 503
        → d.preferred ≡ response.server
        → knows d.servers response.server ≡ true
        → Verdict c d response none
    gives_up : (e : ClientError) → d.preferred ≡ c.preferred → Verdict c d response (some e)

  -- What an attempt does.
  data Does (c : Client) : Turn → Type 0 where
    ends :
        {d : Client} {response : Response} {e : Option ClientError}
        → IsTrusted parse d
        → Grows c d
        → FromKnown d response
        → Verdict c d response e
        → Does c (finished d response e)
    goes :
        {r : Round}
        → IsGood r
        → Grows c r.client
        → r.client.preferred ≡ c.preferred
        → Does c (again r)

  FromKnown-Grows :
      (c d : Client) (response : Response) → Grows c d → FromKnown c response → FromKnown d response
  FromKnown-Grows c d response g (inl e) = inl e
  FromKnown-Grows c d response g (inr k) = inr (g _ k)

  IsGood-Learns :
      (r : Round) (c : Client)
      → Learns parse r.client c
      → IsGood r
      → IsGood (record r { client = c })
  IsGood-Learns r c l g = record {
    trusted = l.trusted g.trusted;
    target = l.grows r.target g.target;
    answer = FromKnown-Grows r.client c r.response l.grows g.answer;
  }

  some_known : (ts : List Text) (t : Text) → knows ts t ≡ true → 0 < length ts
  unfolding knows
  some_known [] t h = cc
  some_known (u ∷ ts) t h = omega arith

  -- The next address is a known one.
  next_known :
      (r : Round)
      → IsGood r
      → knows r.client.servers
          (get_or (addresses r.client) ((r.cursor + 1) % length (addresses r.client)) [])
        ≡ true
  next_known r g =
      let some_left : 0 < length (addresses r.client) =
        rw (length-addresses r.client) (some_known r.client.servers r.target g.target) in
      sym (knows-addresses r.client _)
      ∙ knows-get_or (addresses r.client) _ [] (mod-lt (r.cursor + 1) some_left)

  retarget-Does :
      (n : ℕ) (r : Round) (redirect : Option Text)
      → IsGood r
      → ((s : Text) → redirect ≡ some s → knows r.client.servers s ≡ true)
      → IsGood (retarget parse n r redirect)
        × ((retarget parse n r redirect).client ≡ r.client)
        × ((retarget parse n r redirect).response ≡ r.response)
  unfolding retarget
  retarget-Does n r none g k =
      (record { trusted = g.trusted; target = next_known r g; answer = g.answer }, refl, refl)
  retarget-Does n r (some s) g k = elim (Bool-cases (not (text_eq s r.target) && n % 2 == 0)) [
    | inl there ↦
        rw there (record { trusted = g.trusted; target = k s refl; answer = g.answer }, refl, refl)
    | inr here ↦
        rw here
          (record { trusted = g.trusted; target = next_known r g; answer = g.answer }, refl, refl)
  ]

  move_on-Does :
      (c : Client) (net : Network) (n : ℕ) (r : Round) (redirect : Option Text)
      → Learns parse c r.client
      → IsGood r
      → ((s : Text) → redirect ≡ some s → knows r.client.servers s ≡ true)
      → Does c (move_on parse net n r redirect)
  unfolding move_on
  move_on-Does c net n r redirect l g k =
      let learned = discover-Learns parse net n r.client r.target in
      let found = record r { client = discover parse net n r.client r.target } in
      let all = Learns-trans parse l learned in
      let (good, same, response) =
        retarget-Does n found redirect (IsGood-Learns r found.client learned g)
          (λ s e. learned.grows s (k s e)) in
      elim (Bool-cases (net.ended_after n)) [
        | inl late ↦ rw late (
            ends good.trusted (rw same all.grows) good.answer
              (gives_up deadline (ap (λ (d : Client). d.preferred) same ∙ all.preferred)))
        | inr early ↦
            rw early (
              goes good (rw same all.grows) (ap (λ (d : Client). d.preferred) same ∙ all.preferred))
      ]

  redirect-known :
      (c : Client) (o : Option Text) (s : Text)
      → o ≡ some s
      → knows (follow parse c o).servers s ≡ true
  redirect-known c none s e = cc
  redirect-known c (some t) s e =
      let same : t ≡ s = cc (e) in
      subst (λ u. knows (add c t).servers u ≡ true) same (knows-add parse c t)

  follow-Learns :
      (c : Client) (location : Text)
      → Learns parse c (follow parse c (redirect_origin parse location))
  unfolding redirect_origin
  follow-Learns c location = go (parse location)
    where
      go :
          (o : Option Url)
          → Learns parse c (
              follow parse c (elim o [
                | none ↦ none
                | some u ↦
                    let origin = u.scheme ++ (bytes "://" ++ u.host) in
                    if valid_origin parse origin then some origin else none
              ]))
      go none = Learns-refl parse c
      go (some u) = elim (Bool-cases (valid_origin parse (u.scheme ++ (bytes "://" ++ u.host)))) [
        | inl good ↦ rw good (add-Learns parse c _ good)
        | inr bad ↦ rw bad (Learns-refl parse c)
      ]

  -- The answer of the round is replaced by one of its target.
  IsGood-answer :
      (r : Round) (response : Response)
      → response.server ≡ r.target
      → IsGood r
      → IsGood (record r { response = response })
  IsGood-answer r response e g = record {
    trusted = g.trusted;
    target = g.target;
    answer = inr (rw e g.target);
  }

  final-Does :
      (net : Network) (n : ℕ) (r : Round) (response : Response)
      → response.server ≡ r.target
      → response.status_code ≢ 307
      → response.status_code ≢ 308
      → response.status_code ≢ 503
      → IsGood r
      → (d : Client) → Learns parse (record (r.client) { preferred = r.target }) d
      → Does r.client (finished d response none)
  final-Does net n r response e a b c g d l =
      ends
        (l.trusted (record {
          origins = g.trusted.origins;
          unique = g.trusted.unique;
          preferred = inr g.target;
        }))
        l.grows (inr (rw e (l.grows r.target g.target)))
        (settles a b c (l.preferred ∙ sym e) (rw e (l.grows r.target g.target)))

  weigh_answer-Does :
      (net : Network) (n : ℕ) (r : Round) (response : Response) (location : Text)
      → response.server ≡ r.target
      → IsGood r
      → Does r.client (weigh_answer parse net n r response location)
  unfolding weigh_answer
  weigh_answer-Does net n r response location e g =
      elim (Bool-cases (response.status_code == 307 || response.status_code == 308)) [
        | inl moved ↦
            let learned = follow-Learns r.client location in
            let c = follow parse r.client (redirect_origin parse location) in
            rw moved (
              move_on-Does r.client net n (record r { response = response; client = c })
                (redirect_origin parse location) learned
                (IsGood-Learns (record r { response = response }) c learned
                  (IsGood-answer r response e g))
                (redirect-known r.client (redirect_origin parse location)))
        | inr stays ↦ rw stays (elim (Bool-cases (response.status_code == 503)) [
          | inl busy ↦ rw busy (
              move_on-Does r.client net n (record r { response = response }) none
                (Learns-refl parse r.client) (IsGood-answer r response e g) (λ s z. cc))
          | inr fine ↦
              let c = record (r.client) { preferred = r.target } in
              let final =
                final-Does net n r response e (ground (arith, stays)) (ground (arith, stays))
                  (ground (arith, fine)) g in
              rw fine (elim (Bool-cases (ltb response.status_code 300)) [
                | inl good ↦ rw good (
                    final (discover parse net n c r.target)
                      (discover-Learns parse net n c r.target))
                | inr bad ↦ rw bad (final c (Learns-refl parse c))
              ])
        ])
      ]

  weigh-Does :
      (net : Network) (n : ℕ) (r : Round) (a : Answer)
      → IsGood r
      → Does r.client (weigh parse net n r a)
  unfolding weigh
  weigh-Does net n r no_answer g =
      move_on-Does r.client net n r none (Learns-refl parse r.client) g (λ s z. cc)
  weigh-Does net n r unreadable g =
      move_on-Does r.client net n r none (Learns-refl parse r.client) g (λ s z. cc)
  weigh-Does net n r (answered status body location) g =
      weigh_answer-Does net n r (record { status_code = status; body = body; server = r.target })
        location refl g

  turn-Does :
      (net : Network) (method path : Text) (n : ℕ) (r : Round)
      → IsGood r
      → Does r.client (turn parse net method path n r)
  unfolding turn
  turn-Does net method path n r g = elim (Bool-cases (net.ended n)) [
    | inl late ↦ rw late (ends g.trusted (λ t k. k) g.answer (gives_up deadline refl))
    | inr early ↦ rw early (elim (Bool-cases (not (net.makes method (r.target ++ path)))) [
      | inl bad ↦ rw bad (ends g.trusted (λ t k. k) g.answer (gives_up bad_request refl))
      | inr good ↦ rw good (weigh-Does net n r (net.send n (r.target ++ path)) g)
    ])
  ]

  -- What `Do` leaves and returns.
  pub record Settles (c : Client) (o : Client × Response × Option ClientError) : Type 0 where
    pub trusted : IsTrusted parse o.0
    pub grows : Grows c o.0
    pub answer : FromKnown o.0 o.1
    pub verdict : Verdict c o.0 o.1 o.2

  Settles-Grows :
      {c d : Client} {o : Client × Response × Option ClientError}
      → Grows c d
      → d.preferred ≡ c.preferred
      → Settles d o
      → Settles c o
  Settles-Grows {c} {d} {o} g e s = record {
    trusted = s.trusted;
    grows = λ t k. s.grows t (g t k);
    answer = s.answer;
    verdict = before s.verdict;
  }
    where
      before :
          {d' : Client} {response : Response} {o' : Option ClientError}
          → Verdict d d' response o'
          → Verdict c d' response o'
      before (settles x y z p k) = settles x y z p k
      before (gives_up err p) = gives_up err (p ∙ e)

  attempts-Settles :
      (net : Network) (method path : Text) (left : ℕ) (r : Round)
      → IsGood r
      → Settles r.client (attempts parse net method path left r)
  unfolding attempts
  attempts-Settles net method path zero r g = record {
    trusted = g.trusted;
    grows = λ t k. k;
    answer = g.answer;
    verdict = gives_up retry_limit refl;
  }
  attempts-Settles net method path (suc left) r g =
      go (turn parse net method path (39 - left) r) (turn-Does net method path (39 - left) r g)
        (attempts-Settles net method path left)
    where
      go :
          (t : Turn)
          → Does r.client t
          → ((r : Round) → IsGood r → Settles r.client (attempts parse net method path left r))
          → Settles r.client (elim t [
            | finished c response e ↦ (c, response, e)
            | again r ↦ attempts parse net method path left r
          ])
      go _ (ends t grows answer verdict) rest = record {
        trusted = t;
        grows = grows;
        answer = answer;
        verdict = verdict;
      }
      go _ (goes good grows same) rest = Settles-Grows grows same (rest _ good)

  -- Whatever the network answers and whatever addresses it names, a `Do` of a client whose addresses
  -- are distinct origins, at least one, keeps that and every address. The answer is one of a known
  -- address, or there was none. Without an error the answer is no redirect and no 503, and its server
  -- is the preferred one from then on; with an error the preferred address stays.
  pub request-Settles :
      (net : Network) (method path : Text) (c : Client)
      → IsTrusted parse c
      → 0 < length c.servers
      → Settles c (request parse net method path c)
  unfolding request
  request-Settles net method path c trusted some_left =
      attempts-Settles net method path 40
        (record {
          client = c;
          response = record { status_code = 0; body = []; server = [] };
          target = get_or (addresses c) 0 [];
          cursor = 0;
        })
        (record {
          trusted = trusted;
          target =
              sym (knows-addresses c _)
              ∙ knows-get_or (addresses c) 0 [] (rw (length-addresses c) some_left);
          answer = inl refl;
        })
