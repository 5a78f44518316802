-- ===== src/Storage/Disk.antt =====
-- What internal/storage uses of `os` and `syscall`: the files and the locks of one directory, with a
-- result for each call, so that a theorem over all `outcome` covers every sequence of failures.
pub mod Calls
pub mod Keeping
use shard_zero.Prelude.{
  ℕ, ◌+◌, Bool, true, false, ◌&&◌, ◌||◌, not, Option, none, some, List, [], ◌∷◌, ◌++◌, Text,
  text_eq, length, take, min, if◌then◌else◌, Attempt, done, failed,
}
use shard_zero.Prelude.Dict.{Dict, text_key, get, put, remove, read}

-- A write that fails, or that falls short with no error, has written so many bytes at most.
pub data Syscall : Type 0 where
  succeeds : Syscall
  fails : ℕ → Syscall
  falls_short : ℕ → Syscall

-- `locks` names the files that a process holds a lock on.
pub record Disk : Type 0 where
  pub files : Dict Text Text
  pub locks : List Text
  pub calls : ℕ
  pub outcome : ℕ → Syscall

-- The errors of the package; `E` is that of the callback of `OpenJournal`.
pub data WalError (E : Type 0) : Type 0 where
  unknown_journal in_use incompatible io_error : WalError E
  invalid_length checksum_mismatch : ℕ → WalError E
  replay_failed : ℕ → E → WalError E
  invalid_size short_write unavailable no_replacement : WalError E

abbrev pub Io : Type 0 → Type 0 → Type 0
Io E A = Disk → Disk × Attempt A (WalError E)

abbrev pub pure : {E A : Type 0} → A → Io E A
pure a d = (d, done a)

abbrev pub fail : {E A : Type 0} → WalError E → Io E A
fail e d = (d, failed e)

abbrev pub continue :
    {E A B : Type 0} → Disk × Attempt A (WalError E) → (A → Io E B) → Disk × Attempt B (WalError E)
continue (d, done a) f = f a d
continue (d, failed e) f = (d, failed e)

infixl 5 ◌>>=◌ ◌>>◌
abbrev pub ◌>>=◌ : {E A B : Type 0} → Io E A → (A → Io E B) → Io E B
◌>>=◌ m f d = continue (m d) f

abbrev pub ◌>>◌ : {E B : Type 0} → Io E (Unit {0}) → Io E B → Io E B
m >> k = m >>= λ _. k

abbrev pub cleaned :
    {E A : Type 0} → (Disk → Disk) → Disk × Attempt A (WalError E) → Disk × Attempt A (WalError E)
cleaned clean (d, done a) = (d, done a)
cleaned clean (d, failed e) = (clean d, failed e)

-- the closure `fail` of OpenJournal and of Replace
abbrev pub on_failure : {E A : Type 0} → (Disk → Disk) → Io E A → Io E A
on_failure clean m d = cleaned clean (m d)

abbrev is_error : Syscall → Bool
is_error (fails _) = true
is_error _ = false

abbrev pub next_call : Disk → Disk
next_call d = record d { calls = d.calls + 1 }

-- The next call of the system returns an error.
abbrev pub refused : Disk → Bool
refused d = is_error (d.outcome d.calls)

-- a call that changes no file: MkdirAll, Stat, Sync, Seek, Close, a read
abbrev pub call : {E : Type 0} → Io E (Unit {0})
call d = (next_call d, if refused d then failed io_error else done tt)

abbrev pub content : Disk → Text → Text
content d name = read d.files name []

abbrev pub write_content : Disk → Text → Text → Disk
write_content d name bytes = record d { files = put d.files name bytes }

-- `os.OpenFile` with O_CREATE
unfoldable pub create : {E : Type 0} → Text → Io E (Unit {0})
create name d =
    if refused d
    then (next_call d, failed io_error)
    else (write_content (next_call d) name (content d name), done tt)

-- `os.OpenFile` with O_CREATE and O_TRUNC
unfoldable pub create_empty : {E : Type 0} → Text → Io E (Unit {0})
create_empty name d =
    if refused d
    then (next_call d, failed io_error)
    else (write_content (next_call d) name [], done tt)

abbrev pub contains : List Text → Text → Bool
contains [] name = false
contains (x ∷ xs) name = text_eq x name || contains xs name

-- `lockFile`
unfoldable pub lock_file : {E : Type 0} → Text → Io E (Unit {0})
lock_file name d =
    if refused d || contains d.locks name
    then (next_call d, failed in_use)
    else (record (next_call d) { locks = name ∷ d.locks }, done tt)

unfoldable pub unlocked : List Text → Text → List Text
unlocked [] name = []
unlocked (x ∷ xs) name = let rest = unlocked xs name in if text_eq x name then rest else x ∷ rest

-- `Close` of a file that is locked; the file is closed even if the call returns an error.
unfoldable pub release : Text → Disk → Disk
unfolding unlocked
release name d = record (next_call d) { locks = unlocked d.locks name }

-- `os.Truncate`
unfoldable pub truncate : {E : Type 0} → Text → ℕ → Io E (Unit {0})
truncate name size d =
    if refused d
    then (next_call d, failed io_error)
    else (write_content (next_call d) name (take size (content d name)), done tt)

-- `os.Remove`, its error ignored
unfoldable pub remove_file : Text → Disk → Disk
remove_file name d =
    if refused d then next_call d else record (next_call d) { files = remove d.files name }

-- `os.Rename`
unfoldable pub rename : {E : Type 0} → Text → Text → Io E (Unit {0})
rename from to d =
    if refused d
    then (next_call d, failed io_error)
    else (record (next_call d) { files = remove (put d.files to (content d from)) from }, done tt)

-- How many bytes of a write of `size` reach the file.
abbrev pub written : Syscall → ℕ → ℕ
written succeeds size = size
written (fails k) size = min k size
written (falls_short k) size = min k size

-- `Write` at the end of a file: the number of bytes, and whether it returned an error
unfoldable pub write : Text → Text → Disk → Disk × ℕ × Bool
write name bytes d =
    let n = written (d.outcome d.calls) (length bytes) in
    (write_content (next_call d) name (content d name ++ take n bytes), n, refused d)
