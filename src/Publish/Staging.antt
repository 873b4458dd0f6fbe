-- ===== src/Publish/Staging.antt =====
-- The staging helpers of trt-files/scripts/build_engine.py: `_adjacent_temp`, `_link_backup`,
-- `_restore_output` and `_cleanup_publish_files`.
use Prim.Native.Nat.{bit_or}
use dfine_cpp.Common.{
  ℕ, zero, suc, Bool, true, false, Option, none, some, List, [], ◌∷◌, ◌++◌, Text, codes,
}
use dfine_cpp.Publish.System.{
  M, ok, raised, Exn, file_not_found, file_exists, is_os_error, pure, raise, ◌>>=◌, ◌>>◌, catch,
  finally, on_error, lstat, stat_mode, create, chmod, unlink, unlink_missing_ok, link, replace,
  other_call, draw_token,
}

-- f".{target.name}.{token}{suffix}"
abbrev pub temp_name : Text → Text → Text → Text
temp_name target token suffix = b'.' ∷ (target ++ (b'.' ∷ (token ++ suffix)))

abbrev pub creation_mode : Option ℕ → ℕ
creation_mode none = 0o666
creation_mode (some m) = bit_or m 0o600

-- `os.fchmod(fd, mode)`; a file whose mode cannot be set is removed.
unfoldable pub adjust : Text → ℕ → M (Unit {0})
adjust path m = on_error (chmod path (bit_or m 0o600)) (unlink_missing_ok path)

-- The mode is that of the target, if there is one; the descriptor is closed always.
unfoldable pub settle : Text → Option ℕ → M (Unit {0})
settle path none = other_call
settle path (some m) = finally (adjust path m) other_call

-- The loop `for _ in range(128)`, by the attempts left.
unfoldable pub allocate : ℕ → Text → Text → Option ℕ → M Text
allocate zero target suffix existing = raise file_exists
allocate (suc n) target suffix existing = do
  token ← draw_token
  let path = temp_name target token suffix
  made ← create path (creation_mode existing)
  elim made [ false ↦ allocate n target suffix existing | true ↦ settle path existing >> pure path ]

abbrev pub attempts : ℕ
attempts = 128

unfoldable pub adjacent_temp : Text → Text → M Text
adjacent_temp target suffix = do
  existing ← stat_mode target
  allocate attempts target suffix existing

-- Whether the path is there: `path.lstat()` with `except FileNotFoundError`.
abbrev absent : Exn → M Bool
absent file_not_found = pure false
absent e = raise e

unfoldable pub is_there : Text → M Bool
is_there path = catch (lstat path >> pure true) absent

abbrev pub backup_suffix : Text
backup_suffix = codes ".previous"

-- Make the backup name free again, and link the output to it.
unfoldable pub fill_backup : Text → Text → M (Option Text)
fill_backup path backup = do
  unlink backup
  on_error (other_call >> link path backup) (unlink_missing_ok backup)
  pure (some backup)

unfoldable pub link_backup : Text → M (Option Text)
link_backup path = do
  there ← is_there path
  elim there [ false ↦ pure none | true ↦ adjacent_temp path backup_suffix >>= fill_backup path ]

unfoldable pub restore_output : Text → Option Text → M (Unit {0})
restore_output path none = unlink_missing_ok path
restore_output path (some backup) = replace backup path

-- `except OSError` prints a warning and goes on.
abbrev pub warn_os_error : Exn → M (Unit {0})
warn_os_error e w = elim (is_os_error e) [ true ↦ (ok tt, w) | false ↦ (raised e, w) ]

unfoldable pub cleanup : List (Option Text) → M (Unit {0})
cleanup [] = pure tt
cleanup (none ∷ paths) = cleanup paths
cleanup (some path ∷ paths) = catch (unlink_missing_ok path) warn_os_error >> cleanup paths
