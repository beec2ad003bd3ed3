-- ===== src/Tests/Shelf.antt =====
-- A package with one file, and a request's organization.

use auto_test_system.Prelude.{ℕ, true, false, none, [], ◌∷◌, String}
use auto_test_system.Documents.{Package, PackageFile}
use auto_test_system.Mongo.Assoc.{assoc}
use auto_test_system.World.{World}
use auto_test_system.Queue.{Handle}
use auto_test_system.Access.{Context}
use auto_test_system.Tests.Data.{empty_world}

abbrev pub file : ℕ → String → Handle PackageFile
file k v = record {
  pk = k;
  doc = record { filename = "a.egg"; name = "a"; version = v; uploader = none; download_times = 0 };
}

abbrev pub pkg : Package
pkg = record {
  package_type = "Test Suite";
  name = "a";
  files = 1 ∷ [];
  proprietary = false;
  download_times = 0;
  organization = none;
  team = none;
  uploader = none;
  py_packages = "a" ∷ [];
  modified = false;
}

abbrev pub shelf : World assoc
shelf = record (empty_world true) {
  packages = (1, pkg) ∷ [];
  package_files = (1, (file 1 "11").doc) ∷ [];
}

abbrev pub ctx : Context
ctx = record {
  organization = record {
    pk = 1;
    doc = record {
      name = "company";
      owner = 1;
      members = 1 ∷ [];
      teams = [];
      personal = false;
      editors = [];
    };
  };
  team = none;
}
