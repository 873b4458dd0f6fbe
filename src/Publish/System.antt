-- ===== src/Publish/System.antt =====
-- The file system below the publication code of trt-files/scripts/build_engine.py: one directory
-- of names, inodes that hard links share, and system calls that may fail. The calls are those of
-- `os` and `pathlib`; each takes one entry of a schedule of faults, so that a statement about
-- every schedule is one about every point of failure.
use Prim.Native.Nat.{bit_and}
use dfine_cpp.Common.{
  ℕ, ◌+◌, Bool, true, false, Option, none, some, List, [], ◌∷◌, Text, text_eq, ◌==◌, if◌then◌else◌,
}

-- A directory entry: a regular file by its inode, or a symbolic link by its text.
pub data Entry : Type 0 where
  file : ℕ → Entry
  symlink : Text → Entry

pub record Inode : Type 0 where
  pub content : Text
  pub mode : ℕ

-- What a system call may raise beside its own errors: an `OSError`, or a signal's exception.
pub data Fault : Type 0 where
  io_fault signal_fault : Fault

pub record World : Type 0 where
  pub entry : Text → Option Entry
  pub inode : ℕ → Inode
  pub next : ℕ
  -- `secrets.token_hex(8)`, by the number of tokens drawn before
  pub token : ℕ → Text
  pub drawn : ℕ
  -- the mode at the end of a symbolic link, `none` if it dangles
  pub link_mode : Text → Option ℕ
  -- what the umask leaves of a requested mode
  pub masked : ℕ → ℕ
  -- `Path.resolve` on a directory
  pub real : Text → Text
  pub faults : List (Option Fault)

pub data Exn : Type 0 where
  file_not_found file_exists os_error keyboard_interrupt value_error : Exn
  rollback_failed : List Text → Exn

pub data Outcome (A : Type 0) : Type 0 where
  ok : A → Outcome A
  raised : Exn → Outcome A

abbrev pub M : Type 0 → Type 0
M A = World → Outcome A × World

module _ {A : Type 0} where
  abbrev pub pure : A → M A
  pure a w = (ok a, w)

  abbrev pub raise : Exn → M A
  raise e w = (raised e, w)

infixl 5 ◌>>=◌ ◌>>◌
abbrev pub ◌>>=◌ : {A B : Type 0} → M A → (A → M B) → M B
◌>>=◌ m f w = let (r, w') = m w in elim r [ ok a ↦ f a w' | raised e ↦ (raised e, w') ]

abbrev pub ◌>>◌ : {A B : Type 0} → M A → M B → M B
m >> k = m >>= λ _. k

module _ {A : Type 0} where
  -- `try: m` with a handler for every exception.
  abbrev pub catch : M A → (Exn → M A) → M A
  catch m h w = let (r, w') = m w in elim r [ ok a ↦ (ok a, w') | raised e ↦ h e w' ]

  -- `try: m finally: h`
  abbrev pub finally : M A → M (Unit {0}) → M A
  finally m h w =
      let (r, w') = m w in
      let (s, w'') = h w' in elim s [ ok _ ↦ (r, w'') | raised e ↦ (raised e, w'') ]

-- `except BaseException: h; raise`
abbrev pub on_error : {A : Type 0} → M A → M (Unit {0}) → M A
on_error m h = catch m (λ e. h >> raise e)

-- The subclasses of `OSError`.
abbrev pub is_os_error : Exn → Bool
is_os_error file_not_found = true
is_os_error file_exists = true
is_os_error os_error = true
is_os_error keyboard_interrupt = false
is_os_error value_error = false
is_os_error (rollback_failed _) = false

abbrev pub exn_of : Fault → Exn
exn_of io_fault = os_error
exn_of signal_fault = keyboard_interrupt

module _ {A : Type 0} where
  -- One entry of the schedule goes to each call; an exhausted schedule has no more faults.
  unfoldable pub under : List (Option Fault) → M A → M A
  under [] act w = act w
  under (none ∷ fs) act w = act (record w { faults = fs })
  under (some f ∷ fs) act w = (raised (exn_of f), record w { faults = fs })

  abbrev pub syscall : M A → M A
  syscall act w = under w.faults act w

abbrev pub put_entry : (Text → Option Entry) → Text → Option Entry → Text → Option Entry
put_entry f p e q = if text_eq p q then e else f q

-- `path.lstat()`
unfoldable pub lstat : Text → M Entry
lstat p = syscall λ w. elim (w.entry p) [ none ↦ (raised file_not_found, w) | some e ↦ (ok e, w) ]

abbrev mode_at : World → Entry → Option ℕ
mode_at w (file i) = some (w.inode i).mode
mode_at w (symlink t) = w.link_mode t

-- `path.stat().st_mode & 0o777`, `none` at a `FileNotFoundError`
unfoldable pub stat_mode : Text → M (Option ℕ)
stat_mode p = syscall λ w. elim (w.entry p) [
  | none ↦ (ok none, w)
  | some e ↦ (ok (elim (mode_at w e) [ none ↦ none | some m ↦ some (bit_and m 0o777) ]), w)
]

-- `os.open(path, O_WRONLY | O_CREAT | O_EXCL, mode)`: false at a `FileExistsError`
unfoldable pub create : Text → ℕ → M Bool
create p mode = syscall λ w. elim (w.entry p) [
  | some _ ↦ (ok false, w)
  | none ↦ (
    ok true,
    record w {
      entry = put_entry w.entry p (some (file w.next));
      inode = λ i. if i == w.next then record { content = []; mode = w.masked mode } else w.inode i;
      next = w.next + 1;
    },
  )
]

abbrev set_inode : World → ℕ → Inode → World
set_inode w j d = record w { inode = λ i. if i == j then d else w.inode i }

-- `path.chmod(mode)` and `os.fchmod`; through a symbolic link the mode changes elsewhere
unfoldable pub chmod : Text → ℕ → M (Unit {0})
chmod p mode = syscall λ w. elim (w.entry p) [
  | none ↦ (raised file_not_found, w)
  | some (file j) ↦ (ok tt, set_inode w j (record { content = (w.inode j).content; mode = mode }))
  | some (symlink _) ↦ (ok tt, w)
]

-- `path.write_text(text)` on a file that is there
unfoldable pub write_text : Text → Text → M (Unit {0})
write_text p text = syscall λ w. elim (w.entry p) [
  | none ↦ (raised file_not_found, w)
  | some (file j) ↦ (ok tt, set_inode w j (record { content = text; mode = (w.inode j).mode }))
  | some (symlink _) ↦ (ok tt, w)
]

-- `path.unlink()`
unfoldable pub unlink : Text → M (Unit {0})
unlink p = syscall λ w. elim (w.entry p) [
  | none ↦ (raised file_not_found, w)
  | some _ ↦ (ok tt, record w { entry = put_entry w.entry p none })
]

-- `path.unlink(missing_ok=True)`
unfoldable pub unlink_missing_ok : Text → M (Unit {0})
unlink_missing_ok p = syscall λ w. (ok tt, record w { entry = put_entry w.entry p none })

-- `os.link(source, target)` and `target.symlink_to(os.readlink(source))`, by what the source is:
-- either makes a second entry like the first.
unfoldable pub link : Text → Text → M (Unit {0})
link source target = syscall λ w. elim (w.entry source) [
  | none ↦ (raised file_not_found, w)
  | some e ↦ elim (w.entry target) [
    | some _ ↦ (raised file_exists, w)
    | none ↦ (ok tt, record w { entry = put_entry w.entry target (some e) })
  ]
]

abbrev pub same_file : Entry → Option Entry → Bool
same_file (file i) (some (file j)) = i == j
same_file _ _ = false

-- `os.replace(source, target)`. Between two links to one file rename(2) does nothing.
unfoldable pub replace : Text → Text → M (Unit {0})
replace source target = syscall λ w. elim (w.entry source) [
  | none ↦ (raised file_not_found, w)
  | some e ↦
      if same_file e (w.entry target)
      then (ok tt, w)
      else (ok tt, record w { entry = put_entry (put_entry w.entry target (some e)) source none })
]

-- A call that can fail and whose effect lies outside the directory: `open`, `close`, `flock`.
unfoldable pub other_call : M (Unit {0})
other_call = syscall λ w. (ok tt, w)

unfoldable pub draw_token : M Text
draw_token w = (ok (w.token w.drawn), record w { drawn = w.drawn + 1 })
