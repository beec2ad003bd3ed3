-- ===== src/Doc/Stored.antt =====
-- Which pages a request of webserver/app/main/controller/document_controller.py stores and reaches.
use auto_test_system.Prelude.{
  ℕ, ◌≡◌, refl, sym, ◌∙◌, ap, Bool, true, false, not, ◌&&◌, ◌||◌, Option, none, some, String,
  str_eq, eq_iff, opt_eq, ==_refl, arith, Option-cases, inl, inr, present,
}
use mathlib.Core.Bool.{true≢false}
use auto_test_system.Mongo.Defs.{Mongo, IsLawful, find_one}
use auto_test_system.Mongo.Find.{find_one-Sound, find_one-present}
use auto_test_system.Documents.{User, Team, Documentation}
use auto_test_system.World.{World}
use auto_test_system.Store.{commit_page_ok}
use auto_test_system.Queue.{Handle}
use auto_test_system.Util.{Value, js2python_bool}
use auto_test_system.Access.{Context, pk_of}
use auto_test_system.Text.{basename}
use auto_test_system.Paths.{is_path_secure}
use auto_test_system.Doc.Publish.{Repo}
use auto_test_system.Doc.{
  check_editable, PageRequest, of_team, same_flag, page_query, with_md, store_page, new_page,
  post_page, lock_page, locks_home,
}
use auto_test_system.Doc.Pages.{post_query, post-state}

-- The page of a query's result.
abbrev pub page_of : Option (ℕ × Documentation) → Option Documentation
page_of none = none
page_of (some (k, d)) = some d

same_flag_refl : (b : Bool) → same_flag b b ≡ true
same_flag_refl true = refl
same_flag_refl false = refl

str_eq_refl : (s : String) → str_eq s s ≡ true
str_eq_refl s = ground (arith, eq_iff s s)

of_team-pk : (t : Option (Handle Team)) (d : Documentation) → d.team ≡ pk_of t → of_team t d ≡ true
of_team-pk none d e = refl
of_team-pk (some t) d e = rw e (==_refl t.pk)

module _ (ctx : Context) (user : Handle User) where
  in_scope :
      (b : Bool) (language path : String)
      → (not b
          || (opt_eq (new_page ctx user b language path).organization (some ctx.organization.pk)
              && of_team ctx.team (new_page ctx user b language path)))
        ≡ true
  in_scope false language path = refl
  in_scope true language path =
      rw (==_refl ctx.organization.pk)
        (of_team-pk ctx.team (new_page ctx user true language path) refl)

  new_page-fits :
      (proprietary : Bool) (language path : String)
      → page_query ctx proprietary language path (new_page ctx user proprietary language path)
        ≡ true
  new_page-fits proprietary language path =
      rw (str_eq_refl path, same_flag_refl proprietary, str_eq_refl language)
        (in_scope proprietary language path)

of_team_same :
    (t : Option (Handle Team)) (d : Documentation) (u : Option ℕ) (b : Bool)
    → of_team t (record d { last_modifier = u; locked = b }) ≡ of_team t d
of_team_same none d u b = refl
of_team_same (some t) d u b = refl

open_editable :
    (user : Handle User) (ctx : Context) (d : Documentation)
    → d.locked ≡ false
    → check_editable (some d) user ctx false ≡ true
unfolding check_editable
open_editable user ctx d e = ground (arith, e)

team_page-fits :
    (ctx : Context) (d : Documentation) (language path : String)
    → ctx.team ≡ none
    → d.path ≡ path
    → d.language ≡ language
    → d.proprietary ≡ true
    → d.organization ≡ some ctx.organization.pk
    → page_query ctx true language path d ≡ true
team_page-fits ctx d language path no_team p l f o =
    rw (no_team, p, l, f, o, str_eq_refl path, str_eq_refl language, ==_refl ctx.organization.pk)
      refl

-- A stored page answers for itself, whatever the request says.
editable_same :
    (user : Handle User) (ctx : Context) (d : Documentation) (b : Bool)
    → check_editable (some d) user ctx b ≡ true
    → check_editable (some d) user ctx false ≡ true
unfolding check_editable
editable_same user ctx d b e = e

only_found :
    (m : Mongo) (w : World m) (q : Documentation → Bool) (k : ℕ) (d : Documentation)
    → m.get w.documents k ≡ some d
    → ((j : ℕ) (e : Documentation) → m.get w.documents j ≡ some e → q e ≡ true → j ≡ k)
    → present (find_one m q w.documents) ≡ true
    → find_one m q w.documents ≡ some (k, d)
only_found m w q k d stored only there = elim (Option-cases (find_one m q w.documents)) [
  | inl e ↦ absurd (true≢false (sym there ∙ ap present e))
  | inr ((j, x), e) ↦
      let (stored_too, fits) = find_one-Sound m q w.documents j x e in
      let same = only j x stored_too fits in ground (arith, e, same, stored, stored_too)
]

module _ (m : Mongo) (ctx : Context) (repo : Repo) (user : Handle User) (w : World m)
    (L : IsLawful m) where
  store-stored :
      (req : PageRequest) (o : Option (ℕ × Documentation))
      → find_one m (post_query m ctx repo user w req) w.documents ≡ o
      → check_editable (page_of o) user ctx (js2python_bool req.proprietary) ≡ true
      → present (
          find_one m
            (post_query m ctx repo user w req)
            (store_page m ctx user
              (js2python_bool req.proprietary)
              req.language
              (with_md req.path)
              o
              w).1.documents)
        ≡ true
  unfolding store_page
  store-stored req none e may =
      let proprietary = js2python_bool req.proprietary in
      let path = with_md req.path in
      let k = m.new_id w.documents in
      rw may (
        find_one-present m (post_query m ctx repo user w req)
          (m.insert w.documents k (new_page ctx user proprietary req.language path)) L k
          (rw
            (
              L.get-insert Documentation w.documents k k
                  (new_page ctx user proprietary req.language path),
              ==_refl k,
            )
            (rw (new_page-fits ctx user proprietary req.language path)
              (str_eq_refl (basename path)))))
  store-stored req (some (k, d)) e may =
      let (stored, fits) = find_one-Sound m (post_query m ctx repo user w req) w.documents k d e in
      let path = with_md req.path in
      let f : Documentation → Documentation =
        λ d. record d { last_modifier = some user.pk; locked = locks_home path d.locked } in
      rw
        (
          editable_same user ctx d (js2python_bool req.proprietary) may,
          commit_page_ok m k f w stored,
        )
        (find_one-present m (post_query m ctx repo user w req) (m.update w.documents k f) L k (
          rw (L.get-update Documentation w.documents k k f, ==_refl k, stored)
            (rw (of_team_same ctx.team d (some user.pk) (locks_home path d.locked)) fits)))

  -- A post of a secure path that passes the check has stored the page, whichever way git ends.
  pub post_stored :
      (req : PageRequest)
      → str_eq req.path "" ≡ false
      → is_path_secure req.path ≡ true
      → check_editable
          (page_of (find_one m (post_query m ctx repo user w req) w.documents))
          user
          ctx
          (js2python_bool req.proprietary)
        ≡ true
      → present (
          find_one m
            (post_query m ctx repo user w req)
            (post_page m repo ctx req user w).1.documents)
        ≡ true
  post_stored req e s may =
      rw (post-state m ctx repo user w req e s)
        (store-stored req (find_one m (post_query m ctx repo user w req) w.documents) refl may)

  -- A request for an organization reaches the pages of its teams: where a page of a team is the only
  -- one of the organization with its path and language, and is not locked, setting the lock without
  -- naming a team locks it.
  pub lock_reaches_team :
      (req : PageRequest) (lock : Value) (k t : ℕ) (d : Documentation)
      → str_eq req.path "" ≡ false
      → js2python_bool req.proprietary ≡ true
      → js2python_bool lock ≡ true
      → ctx.team ≡ none
      → m.get w.documents k ≡ some d
      → d.path ≡ with_md req.path
      → d.language ≡ req.language
      → d.proprietary ≡ true
      → d.organization ≡ some ctx.organization.pk
      → d.team ≡ some t
      → d.locked ≡ false
      → ((j : ℕ) (e : Documentation)
          → m.get w.documents j ≡ some e
          → page_query ctx true req.language (with_md req.path) e ≡ true
          → j ≡ k)
      → m.get (lock_page m repo ctx req lock user w).1.documents k
        ≡ some (record d { locked = true })
  unfolding lock_page
  lock_reaches_team req lock k t d nonempty proprietary lock_on no_team stored path language flag
        org team open_page only =
      let query = page_query ctx true req.language (with_md req.path) in
      let fits =
        team_page-fits ctx d req.language (with_md req.path) no_team path language flag org in
      let f : Documentation → Documentation = λ d. record d { locked = true } in
      let found : find_one m query w.documents ≡ some (k, d) =
        only_found m w query k d stored only
          (find_one-present m query w.documents L k (rw stored fits)) in
      rw
        (
          nonempty,
          proprietary,
          lock_on,
          found,
          open_editable user ctx d open_page,
          commit_page_ok m k f w stored,
          L.get-update Documentation w.documents k k f,
          ==_refl k,
          stored,
        )
        refl
