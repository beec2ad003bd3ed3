-- ===== src/Markdown/Update/Created.antt =====
-- What `db_update_test` stores for a script with and without a test.
use auto_test_system.Prelude.{ℕ, true, ◌≡◌, refl, none, some, List, String}
use auto_test_system.Exec.{raised, attribute_error}
use auto_test_system.Mongo.Defs.{Mongo, find_one}
use auto_test_system.Documents.{Test}
use auto_test_system.World.{World}
use auto_test_system.Access.{Context}
use auto_test_system.Text.{ends_with}
use auto_test_system.Markdown.{Token, Locals}
use auto_test_system.Markdown.Update.{test_key, touch, db_update_test}

module _ (m : Mongo) (tokens : String → List Token) (ctx : Context) where
  -- A call of `db_update_test` without a package, for a script whose stored test names no package, raises
  -- AttributeError and changes nothing.
  pub update_without_package :
      (script : String) (w : World m) (k : ℕ) (d : Test)
      → ends_with ".md" script ≡ true
      → find_one m (test_key m tokens ctx script) w.tests ≡ some (k, d)
      → d.test_package ≡ none
      → db_update_test m tokens ctx script none none w ≡ (raised attribute_error, w)
  unfolding db_update_test touch
  update_without_package script w k d md found e = rw (md, found) (rw e refl)

-- The document of a script whose tables have been read.
abbrev pub filled : Test → Locals → Test
filled d l = record d { test_cases = l.test_cases; variables = l.variables }
