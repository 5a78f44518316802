-- ===== src/Events.antt =====
-- internal/events/events.go. The mutex makes each call one step; a time is a number.
pub mod History
mod Tests
use shard_zero.Prelude.{ℕ, ◌++◌, List, [], ◌∷◌, Text, length, drop, ltb, ◌==◌, if◌then◌else◌, inc64}

pub record Event : Type 0 where
  pub id : ℕ
  pub time : ℕ
  pub node_id : Text
  pub kind : Text
  pub term : ℕ
  pub index : ℕ
  pub peer : Text
  pub message_id : Text
  pub detail : Text

pub record Buffer : Type 0 where
  pub next : ℕ
  pub items : List Event
  pub capacity : ℕ

unfoldable pub new : ℕ → Buffer
new capacity = record { next = 0; items = []; capacity = if ltb capacity 1 then 1 else capacity }

-- A full buffer drops its oldest event.
unfoldable pub publish : Buffer → Event → Buffer
publish b e =
    let next = inc64 b.next in
    let kept = if length b.items == b.capacity then drop 1 b.items else b.items in
    record b { next = next; items = kept ++ (record e { id = next } ∷ []) }

-- the loop of `After`
newer : ℕ → List Event → List Event
newer id [] = []
newer id (e ∷ es) = let rest = newer id es in if ltb id e.id then e ∷ rest else rest

unfoldable pub after : Buffer → ℕ → List Event
unfolding newer
after b id = newer id b.items
