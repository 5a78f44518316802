-- ===== src/Storage/Disk/Keeping.antt =====
-- internal/storage: operations that leave the content of a file, whether they fail or not.
use shard_zero.Prelude.{
  ◌≡◌, refl, sym, ap, ◌∙◌, ◌≢◌, [], Text, Attempt, done, failed, arith, text_eq_iff,
}
use shard_zero.Prelude.Dict.{text_key, read, get-remove}
use shard_zero.Storage.Disk.{
  Disk, WalError, Io, pure, fail, ◌>>=◌, continue, cleaned, on_failure, call, content, create,
  create_empty, lock_file, release, remove_file,
}
use shard_zero.Storage.Disk.Calls.{content-create, content-lock_file, content-write_content_other}

module _ (name : Text) where
  pub record Keeps {E A : Type 0} (m : Io E A) : Type 0 where
    pub at : (d : Disk) → content (m d).0 name ≡ content d name

  pub Keeps-pure : (E : Type 0) {A : Type 0} (a : A) → Keeps (pure {E = E} a)
  Keeps-pure E a = record { at = λ d. refl }

  pub Keeps-fail : {E : Type 0} (A : Type 0) (e : WalError E) → Keeps (fail {A = A} e)
  Keeps-fail A e = record { at = λ d. refl }

  pub Keeps-call : (E : Type 0) → Keeps (call {E = E})
  Keeps-call E = record { at = λ d. refl }

  pub Keeps-create : (E : Type 0) (other : Text) → Keeps (create {E = E} other)
  Keeps-create E other = record { at = λ d. content-create E other name d }

  pub Keeps-lock_file : (E : Type 0) (other : Text) → Keeps (lock_file {E = E} other)
  Keeps-lock_file E other = record { at = λ d. content-lock_file E other name d }

  pub Keeps-create_empty :
      (E : Type 0) (other : Text) → other ≢ name → Keeps (create_empty {E = E} other)
  unfolding create_empty
  Keeps-create_empty E other differ = record {
    at = λ d. ground (arith, content-write_content_other d other name [] differ);
  }

  pub Keeps-done :
      {E A : Type 0} (m : Io E A) (d : Disk) {d' : Disk} {a : A}
      → Keeps m
      → m d ≡ (d', done a)
      → content d' name ≡ content d name
  Keeps-done {E} {A} m d keep e =
      ap (λ (q : Disk × Attempt A (WalError E)). content q.0 name) (sym e) ∙ keep.at d

  content-continue :
      {E A B : Type 0} (f : A → Io E B) (d : Disk) (r : Disk × Attempt A (WalError E))
      → ((a : A) → Keeps (f a))
      → content r.0 name ≡ content d name
      → content (continue r f).0 name ≡ content d name
  content-continue f d (d1, done a) keep h = (keep a).at d1 ∙ h
  content-continue f d (d1, failed e) keep h = h

  pub Keeps-bind :
      {E A B : Type 0} (m : Io E A) (f : A → Io E B)
      → Keeps m
      → ((a : A) → Keeps (f a))
      → Keeps (m >>= f)
  Keeps-bind m f keep rest = record { at = λ d. content-continue f d (m d) rest (keep.at d) }

  -- The clean-up after a failure keeps the file as well.
  abbrev pub Spares : (Disk → Disk) → Type 0
  Spares clean = (d : Disk) → content (clean d) name ≡ content d name

  content-cleaned :
      {E A : Type 0} (clean : Disk → Disk) (d : Disk) (r : Disk × Attempt A (WalError E))
      → Spares clean
      → content r.0 name ≡ content d name
      → content (cleaned clean r).0 name ≡ content d name
  content-cleaned clean d (d1, done a) spare h = h
  content-cleaned clean d (d1, failed e) spare h = spare d1 ∙ h

  pub Keeps-on_failure :
      {E A : Type 0} (clean : Disk → Disk) (m : Io E A)
      → Spares clean
      → Keeps m
      → Keeps (on_failure clean m)
  Keeps-on_failure clean m spare keep = record {
    at = λ d. content-cleaned clean d (m d) spare (keep.at d);
  }

  pub release-Spares : (other : Text) → Spares (release other)
  unfolding release
  release-Spares other d = refl

  pub remove_file-Spares : (other : Text) → other ≢ name → Spares (remove_file other)
  unfolding remove_file read
  remove_file-Spares other differ d =
      ground (arith, get-remove d.files other name, text_eq_iff other name)

pub ruleset keeps_rules =
    (Keeps-pure, Keeps-fail, Keeps-call, Keeps-create, Keeps-lock_file, Keeps-bind)
