-- ===== src/Events/History.antt =====
-- internal/events/events.go: the buffer against the whole history of what was published.
use shard_zero.Prelude.{
  inl, inr, Bool-cases, subst, ℕ, zero, suc, ◌+◌, ◌-◌, ◌^◌, ◌<◌, ◌≤◌, max, ◌≡◌, refl, sym, ap, ◌∙◌,
  ◌++◌, List, [], ◌∷◌, arith, length, drop, ltb, ◌==◌, if◌then◌else◌, length-append, length-drop,
  inc64,
}
use mathlib.Core.List.{append-nil, append_assoc}
use shard_zero.Events.{Event, Buffer, new, publish, newer, after}

-- Events one after another.
pub publish_all : Buffer → List Event → Buffer
publish_all b [] = b
publish_all b (e ∷ es) = publish_all (publish b e) es

-- The history of a buffer: what was published, numbered from `first`.
unfoldable pub numbered : ℕ → List Event → List Event
numbered first [] = []
numbered first (e ∷ es) = record e { id = first } ∷ numbered (first + 1) es

length-numbered : (first : ℕ) (es : List Event) → length (numbered first es) ≡ length es
unfolding numbered
length-numbered first [] = refl
length-numbered first (e ∷ es) = ap suc (length-numbered (first + 1) es)

drop-append_end :
    {A : Type 0} (k : ℕ) (xs ys : List A) → k ≤ length xs → drop k (xs ++ ys) ≡ drop k xs ++ ys
drop-append_end zero xs ys h = refl
drop-append_end (suc k) [] ys h = elim h [ ]
drop-append_end (suc k) (x ∷ xs) ys h = drop-append_end k xs ys (omega arith)

drop_nil : {A : Type 0} (k : ℕ) → drop {A = A} k [] ≡ []
drop_nil zero = refl
drop_nil (suc k) = refl

drop-drop : {A : Type 0} (k : ℕ) (xs : List A) → drop 1 (drop k xs) ≡ drop (suc k) xs
drop-drop zero xs = refl
drop-drop (suc k) [] = refl
drop-drop (suc k) (x ∷ xs) = drop-drop k xs

-- The buffer holds the end of the history `h`, up to its capacity.
record Holds (h : List Event) (b : Buffer) : Type 0 where
  items : b.items ≡ drop (length h - b.capacity) h
  next : b.next ≡ length h
  room : 0 < b.capacity

Holds-length :
    (h : List Event) (b : Buffer) → Holds h b → length b.items ≡ length h - (length h - b.capacity)
Holds-length h b w = ap length w.items ∙ length-drop (length h - b.capacity) h

publish-items :
    (h : List Event) (b : Buffer) (x : Event)
    → Holds h b
    → (if length b.items == b.capacity then drop 1 b.items else b.items) ++ (x ∷ [])
      ≡ drop (length (h ++ (x ∷ [])) - b.capacity) (h ++ (x ∷ []))
publish-items h b x w = elim (Bool-cases (length b.items == b.capacity)) [
  | inl full ↦
      let long : suc (length h - b.capacity) ≡ length (h ++ (x ∷ [])) - b.capacity =
        ground (arith, Holds-length h b w, length-append h (x ∷ [])) in
      rw (full, w.items, drop-drop (length h - b.capacity) h, ← long)
        (sym (
          drop-append_end (suc (length h - b.capacity)) h (x ∷ [])
            (ground (arith, Holds-length h b w))))
  | inr partial ↦
      let now : length h - b.capacity ≡ 0 = ground (arith, Holds-length h b w) in
      let later : length (h ++ (x ∷ [])) - b.capacity ≡ 0 =
        ground (arith, Holds-length h b w, length-append h (x ∷ [])) in
      rw (partial, later, w.items, now)
]

Holds-publish :
    (h : List Event) (b : Buffer) (e : Event)
    → length h + 1 < 2 ^ 64
    → Holds h b
    → Holds (h ++ (record e { id = length h + 1 } ∷ [])) (publish b e)
unfolding publish
Holds-publish h b e small w = record {
  items = rw (← id_eq) (publish-items h b (record e { id = inc64 b.next }) w);
  next = id_eq ∙ omega (arith, length-append h (record e { id = length h + 1 } ∷ []));
  room = w.room;
}
  where
    id_eq : inc64 b.next ≡ length h + 1
    id_eq = omega (arith, w.next)

Holds-publish_all :
    (h : List Event) (b : Buffer) (es : List Event)
    → length h + length es < 2 ^ 64
    → Holds h b
    → Holds (h ++ numbered (length h + 1) es) (publish_all b es)
unfolding publish_all numbered
Holds-publish_all h b [] small w = rw (append-nil h) w
Holds-publish_all h b (e ∷ es) small w =
    subst (λ g. Holds g (publish_all (publish b e) es)) regroup
      (Holds-publish_all (h ++ (x ∷ [])) (publish b e) es (omega (arith, length-append h (x ∷ [])))
        (Holds-publish h b e (omega arith) w))
  where
    x : Event
    x = record e { id = length h + 1 }

    longer : length (h ++ (x ∷ [])) ≡ length h + 1
    longer = length-append h (x ∷ [])

    regroup :
        (h ++ (x ∷ [])) ++ numbered (length (h ++ (x ∷ [])) + 1) es
        ≡ h ++ (x ∷ numbered (length h + 1 + 1) es)
    regroup = rw longer (append_assoc h (x ∷ []) (numbered (length h + 1 + 1) es))

Holds-new : (capacity : ℕ) → Holds [] (new capacity)
unfolding new
Holds-new capacity = record {
  items = sym (drop_nil (0 - (new capacity).capacity));
  next = refl;
  room = ground arith;
}

capacity-publish_all : (b : Buffer) (es : List Event) → (publish_all b es).capacity ≡ b.capacity
unfolding publish_all publish
capacity-publish_all b [] = refl
capacity-publish_all b (e ∷ es) = capacity-publish_all (publish b e) es

newer-numbered :
    (id first : ℕ) (es : List Event)
    → newer id (numbered first es) ≡ drop (id + 1 - first) (numbered first es)
unfolding newer numbered
newer-numbered id first [] = sym (drop_nil (id + 1 - first))
newer-numbered id first (e ∷ es) = elim (Bool-cases (ltb id first)) [
  | inl old ↦
      let none_left : id + 1 - (first + 1) ≡ 0 = ground arith in
      let none_before : id + 1 - first ≡ 0 = ground arith in
      rw (old, none_before)
        (ap (λ rest. record e { id = first } ∷ rest)
          (newer-numbered id (first + 1) es ∙ rw none_left))
  | inr seen ↦
      let more : id + 1 - first ≡ suc (id + 1 - (first + 1)) = ground arith in
      rw (seen, more) (newer-numbered id (first + 1) es)
]

newer-drop-numbered :
    (id k first : ℕ) (es : List Event)
    → newer id (drop k (numbered first es)) ≡ drop (max k (id + 1 - first)) (numbered first es)
unfolding numbered
newer-drop-numbered id zero first es =
    let e : id + 1 - first ≡ max zero (id + 1 - first) = omega arith in
    newer-numbered id first es ∙ ap (λ n. drop n (numbered first es)) e
newer-drop-numbered id (suc k) first [] =
    unfold newer in sym (drop_nil (max (suc k) (id + 1 - first)))
newer-drop-numbered id (suc k) first (e ∷ es) =
    let more : max (suc k) (id + 1 - first) ≡ suc (max k (id + 1 - (first + 1))) = omega arith in
    rw more (newer-drop-numbered id k (first + 1) es)

-- While fewer than 2^64 events have been published, numbered 1, 2, 3, ..., `After(id)` gives, in
-- order, exactly the published events whose number is above `id` and among the last `capacity`.
pub after-publish_all :
    (capacity id : ℕ) (es : List Event)
    → length es < 2 ^ 64
    → after (publish_all (new capacity) es) id
      ≡ drop (max (length es - max capacity 1) id) (numbered 1 es)
unfolding after
after-publish_all capacity id es small =
    ap (newer id) w.items
    ∙ newer-drop-numbered id _ 1 es
    ∙ ap (λ n. drop n (numbered 1 es)) (omega (arith, kept, length-numbered 1 es))
  where
    b : Buffer
    b = publish_all (new capacity) es

    w : Holds (numbered 1 es) b
    w = Holds-publish_all [] (new capacity) es (omega arith) (Holds-new capacity)

    kept : b.capacity ≡ max capacity 1
    kept = capacity-publish_all (new capacity) es ∙ (unfold new in ground arith)
