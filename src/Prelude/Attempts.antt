-- ===== src/Prelude/Attempts.antt =====
-- What a Go function returns as `(value, nil)` or `(nil, err)`.
pub data Attempt (A E : Type 0) : Type 0 where
  done : A → Attempt A E
  failed : E → Attempt A E
