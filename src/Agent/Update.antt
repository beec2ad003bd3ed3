-- ===== src/Agent/Update.antt =====
-- endpoint/test_endpoint/update.py: the installation of a release over the present one, `update` and
-- `_update` of SelfUpdate. The release server, the hash, the unpacking of an archive, the removal and the
-- copying of a directory and the writing of the launcher are parameters, each with its failures; what
-- stands in a directory is the list of its files.
pub mod Installed
use auto_test_system.Prelude.{
  ℕ, Bool, true, false, not, Option, none, some, List, [], ◌∷◌, ◌++◌, String, ◌<>◌, str_eq, ◌==◌,
  if◌then◌else◌, present,
}
use auto_test_system.Text.{strip}
use auto_test_system.Exec.{
  Exec, Result, ok, stop, raised, Exn, pure, raise, raise_if, modify, ◌>>=◌, ◌>>◌, runtime_error,
  http_error, os_error, file_exists,
}

-- `urlopen` of a file: its text, or the status of an HTTPError.
pub data Fetched : Type 0 where
  body : String → Fetched
  failed : ℕ → Fetched

-- The places of `update` that remove a directory, and those that copy one.
pub data Removal : Type 0 where
  stale replaced restored final : Removal

pub data Copying : Type 0 where
  saving restoring : Copying

pub record Releases : Type 0 where
  pub fetch : String → Fetched
  pub sha256 : String → String
  -- `extractall`: the files that it writes, and whether it comes to its end; none are written, and
  -- the directory is not made, where the archive cannot be read at all
  pub unpack : String → Option (List String × Bool)
  pub platform : String
  -- `rmtree` of a directory with those files: `none` where it removes them all, or else its exception
  -- and the files that it leaves
  pub rmtree : Removal → List String → Option (Exn × List String)
  -- `copytree` of those files to a place that is not there: `none` where it copies them all, or else its
  -- exception and what it has made
  pub copytree : Copying → List String → Option (Exn × Option (List String))
  -- the exception of `make_bin`, if it raises one
  pub make_bin : Option Exn

-- `~/.collie/lib` and `~/.collie/lib-backup`; `none` is a directory that is not there.
pub record Home : Type 0 where
  pub lib : Option (List String)
  pub lib_backup : Option (List String)

-- What `extractall` leaves of the directory and its new files.
abbrev pub added : List String → Option (List String) → Option (List String)
added fs none = some fs
added fs (some old) = some (old ++ fs)

abbrev pub read : Fetched → Exec Home String
read (body text) = pure text
read (failed code) = raise (if code == 404 then runtime_error else http_error)

abbrev pub extract : Option (List String × Bool) → Exec Home (Unit {0})
extract none h = (raised os_error, h)
extract (some (files, whole)) h =
    (if whole then ok tt else raised os_error, record h { lib = added files h.lib })

-- What is left where `rmtree` has removed a directory, or has raised.
abbrev pub remained : Option (Exn × List String) → Result (Unit {0}) × Option (List String)
remained none = (ok tt, none)
remained (some (e, rest)) = (raised e, some rest)

-- What stands in the new place where `copytree` has copied those files, or has raised.
abbrev pub arrived :
    List String → Option (Exn × Option (List String)) → Result (Unit {0}) × Option (List String)
arrived files none = (ok tt, some files)
arrived files (some (e, part)) = (raised e, part)

abbrev pub with_lib : Result (Unit {0}) × Option (List String) → Exec Home (Unit {0})
with_lib (a, files) h = (a, record h { lib = files })

abbrev pub with_backup : Result (Unit {0}) × Option (List String) → Exec Home (Unit {0})
with_backup (a, files) h = (a, record h { lib_backup = files })

-- An exception of the `finally` branch takes the place of the result.
abbrev pub instead : Result (Unit {0}) → Result (Unit {0}) → Result (Unit {0})
instead (ok b) a = a
instead (stop c t) a = stop c t
instead (raised e) a = raised e

abbrev pub make_bin : Option Exn → Exec Home (Unit {0})
make_bin none = pure tt
make_bin (some e) = raise e

module _ (r : Releases) where
  abbrev pub platform_name : String
  platform_name = if str_eq r.platform "linux2" then "linux" else r.platform

  abbrev pub release_name : String → String
  release_name version = "collie-" <> version <> "-" <> platform_name

  unfoldable pub install_release : String → Exec Home (Unit {0})
  install_release version = do
    checksum ← read (r.fetch ("file=" <> release_name version <> ".sha256sum"))
    archive ← read (r.fetch ("file=" <> release_name version <> ".tar.gz"))
    raise_if (not (str_eq (strip checksum) (r.sha256 archive))) runtime_error
    extract (r.unpack archive)

  abbrev pub remove_backup_of : Removal → Option (List String) → Exec Home (Unit {0})
  remove_backup_of place none = pure tt
  remove_backup_of place (some files) = with_backup (remained (r.rmtree place files))

  abbrev pub remove_backup : Removal → Exec Home (Unit {0})
  remove_backup place h = remove_backup_of place h.lib_backup h

  abbrev pub back_up_of : Option (List String) → Exec Home (Unit {0})
  back_up_of none = pure tt
  back_up_of (some files) = do
    with_backup (arrived files (r.copytree saving files))
    with_lib (remained (r.rmtree replaced files))

  abbrev pub back_up : Exec Home (Unit {0})
  back_up h = back_up_of h.lib h

  -- `copytree(lib_backup, lib)`, which fails where `lib` is there.
  abbrev pub copy_back : List String → Option (List String) → Exec Home (Unit {0})
  copy_back old none = with_lib (arrived old (r.copytree restoring old))
  copy_back old (some new) = raise file_exists

  abbrev pub restore : Option (List String) → Exn → Exec Home (Unit {0})
  restore none e = raise e
  restore (some old) e = do λ h. copy_back old h.lib h; remove_backup restored; raise e

  -- The `except` branch ends in an exception of its own, or raises the first one again.
  abbrev pub recover : Result (Unit {0}) → Exec Home (Unit {0})
  recover (ok a) h = (ok a, h)
  recover (stop c t) h = (stop c t, h)
  recover (raised e) h = restore h.lib_backup e h

  -- The `finally` branch
  abbrev pub drop_backup : Result (Unit {0}) × Home → Result (Unit {0}) × Home
  drop_backup (a, h) = let (b, t) = remove_backup final h in (instead b a, t)

  abbrev pub install : String → Exec Home (Unit {0})
  install version h = let (a, t) = install_release version h in drop_backup (recover a t)

  unfoldable pub update : String → Exec Home (Unit {0})
  update version = do remove_backup stale; back_up; install version; make_bin r.make_bin
