-- ===== src/Storage/Wal/Records.antt =====
-- internal/storage/wal.go: what the bytes of a journal say, apart from the loop that reads them.
use shard_zero.Prelude.{
  ◌+◌, ◌<◌, ◌≤◌, ◌≡◌, ◌⊎◌, false, List, [], ◌∷◌, ◌++◌, Text, length, take, Attempt, done,
}
use shard_zero.Storage.Frames.{uint32}
use shard_zero.Storage.Wal.{bad_size}

-- Append and Replace write payloads of such a size only.
abbrev pub IsPayload : Text → Type 0
IsPayload p = bad_size (length p) ≡ false

-- An incomplete record: part of a header, or a header that announces more bytes than follow.
abbrev pub IsTorn : Text → Type 0
IsTorn tail =
    (0 < length tail)
    × ((length tail < 8)
        ⊎ ((8 ≤ length tail)
            × (bad_size (uint32 (take 8 tail)) ≡ false)
            × (length tail < 8 + uint32 (take 8 tail))))

module _ {S E : Type 0} (replay : S → Text → Attempt S E) where
  -- The payloads, replayed in order, take one state to another.
  pub data Replays : S → List Text → S → Type 0 where
    nothing : (s : S) → Replays s [] s
    first :
        {s t u : S} (p : Text) {ps : List Text}
        → IsPayload p
        → replay s p ≡ done t
        → Replays t ps u
        → Replays s (p ∷ ps) u

  pub Replays-append :
      {s t u : S} (ps : List Text) (p : Text)
      → Replays s ps t
      → IsPayload p
      → replay t p ≡ done u
      → Replays s (ps ++ (p ∷ [])) u
  Replays-append _ p (nothing _) size ok = first p size ok (nothing _)
  Replays-append _ p (first q qs qok r) size ok = first q qs qok (Replays-append _ p r size ok)
