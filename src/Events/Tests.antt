-- ===== src/Events/Tests.antt =====
-- internal/events/events.go: the theorem at work.
use shard_zero.Prelude.{◌-◌, ◌^◌, ◌<◌, max, ◌≡◌, List, [], ◌∷◌, arith, length, drop, bytes, Text}
use shard_zero.Events.{Event, new, after}
use shard_zero.Events.History.{publish_all, numbered, after-publish_all}

abbrev event : Text → Event
event kind = record {
  id = 0;
  time = 5;
  node_id = bytes "a";
  kind = kind;
  term = 1;
  index = 0;
  peer = [];
  message_id = [];
  detail = [];
}

abbrev three : List Event
three = event (bytes "PAUSED") ∷ event (bytes "RESUMED") ∷ event (bytes "COMMITTED") ∷ []

three_is_few : length three < 2 ^ 64
three_is_few = omega arith

after-publish_all_example :
    after (publish_all (new 2) three) 1 ≡ drop (max (length three - max 2 1) 1) (numbered 1 three)
after-publish_all_example = after-publish_all 2 1 three three_is_few
