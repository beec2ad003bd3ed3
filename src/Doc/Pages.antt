-- ===== src/Doc/Pages.antt =====
-- What the handlers of webserver/app/main/controller/document_controller.py leave of the pages.
use auto_test_system.Prelude.{
  ℕ, ◌≡◌, refl, ◌∙◌, Bool, true, false, ◌&&◌, Option, none, some, String, str_eq, contains, arith,
  Bool-cases, Option-cases, inl, inr,
}
use auto_test_system.Exec.{resume-IsStill}
use auto_test_system.Mongo.Defs.{Mongo, find_one}
use auto_test_system.Mongo.Find.{find_one-Sound}
use auto_test_system.Documents.{User, Documentation}
use auto_test_system.World.{World}
use auto_test_system.Queue.{Handle}
use auto_test_system.Util.{Value, js2python_bool}
use auto_test_system.Access.{Context, is_admin, is_collaborator}
use auto_test_system.Text.{basename}
use auto_test_system.Paths.{is_path_secure}
use auto_test_system.Doc.Publish.{Repo, publish}
use auto_test_system.Doc.Still.{publish-IsStill}
use auto_test_system.Doc.{
  edits_team, check_editable, PageRequest, page_query, with_md, store_page, post_page, delete_page,
  lock_page,
}

-- Neither an administrator nor a collaborator, nor among the editors of the team or the organization.
abbrev pub IsOutsider : Handle User → Context → Type 0
IsOutsider user ctx =
    (is_admin user.doc ≡ false)
    × (is_collaborator user.doc ≡ false)
    × (edits_team user.pk ctx.team ≡ false)
    × (contains user.pk ctx.organization.doc.editors ≡ false)

new_refused :
    (user : Handle User) (ctx : Context) (proprietary : Bool)
    → IsOutsider user ctx
    → check_editable none user ctx proprietary ≡ false
unfolding check_editable
new_refused user ctx proprietary h = ground (arith, h)

locked_refused :
    (user : Handle User) (ctx : Context) (proprietary : Bool) (d : Documentation)
    → IsOutsider user ctx
    → d.locked ≡ true
    → check_editable (some d) user ctx proprietary ≡ false
unfolding check_editable
locked_refused user ctx proprietary d h e = ground (arith, h, e)

module _ (m : Mongo) (ctx : Context) (repo : Repo) (user : Handle User) (w : World m) where
  abbrev pub post_query : PageRequest → Documentation → Bool
  post_query req d =
      page_query ctx (js2python_bool req.proprietary) req.language (with_md req.path) d
      && str_eq d.filename (basename (with_md req.path))

  abbrev AreLocked : (Documentation → Bool) → Type 0
  AreLocked q =
      (k : ℕ) (d : Documentation) → m.get w.documents k ≡ some d → q d ≡ true → d.locked ≡ true

  pub post-state :
      (req : PageRequest)
      → str_eq req.path "" ≡ false
      → is_path_secure req.path ≡ true
      → (post_page m repo ctx req user w).1
        ≡ (store_page m ctx user
            (js2python_bool req.proprietary)
            req.language
            (with_md req.path)
            (find_one m (post_query req) w.documents)
            w).1
  unfolding post_page
  post-state req e s =
      let stored =
        store_page m ctx user (js2python_bool req.proprietary) req.language (with_md req.path)
          (find_one m (post_query req) w.documents) w in
      rw (e, s)
        (resume-IsStill stored.0 (λ _. publish repo req.language) stored.1
          (λ _. publish-IsStill repo req.language))

  store-kept :
      (proprietary : Bool) (language path : String) (o : Option (ℕ × Documentation))
      → IsOutsider user ctx
      → ((k : ℕ) (d : Documentation) → o ≡ some (k, d) → d.locked ≡ true)
      → (store_page m ctx user proprietary language path o w).1 ≡ w
  unfolding store_page
  store-kept proprietary language path none h locked = rw (new_refused user ctx proprietary h) refl
  store-kept proprietary language path (some (k, d)) h locked =
      rw (locked_refused user ctx false d h (locked k d refl)) refl

  post-kept :
      (req : PageRequest)
      → IsOutsider user ctx
      → ((k : ℕ) (d : Documentation)
          → find_one m (post_query req) w.documents ≡ some (k, d)
          → d.locked ≡ true)
      → (post_page m repo ctx req user w).1 ≡ w
  unfolding post_page
  post-kept req h locked = elim (Bool-cases (str_eq req.path "")) [
    | inl e ↦ rw e refl
    | inr e ↦ elim (Bool-cases (is_path_secure req.path)) [
      | inr s ↦ rw (e, s) refl
      | inl s ↦
          post-state req e s
          ∙ store-kept (js2python_bool req.proprietary) req.language (with_md req.path)
              (find_one m (post_query req) w.documents) h locked
    ]
  ]

  abbrev pub found_page : PageRequest → Option (ℕ × Documentation)
  found_page req =
      find_one m (page_query ctx (js2python_bool req.proprietary) req.language (with_md req.path))
        w.documents

  delete-kept :
      (req : PageRequest)
      → IsOutsider user ctx
      → ((k : ℕ) (d : Documentation) → found_page req ≡ some (k, d) → d.locked ≡ true)
      → (delete_page m repo ctx req user w).1 ≡ w
  unfolding delete_page
  delete-kept req h locked = elim (Bool-cases (str_eq req.path "")) [
    | inl e ↦ rw e refl
    | inr e ↦ elim (Option-cases (found_page req)) [
      | inl f ↦ rw (e, f) refl
      | inr ((k, d), f) ↦ rw (e, f, locked_refused user ctx false d h (locked k d f)) refl
    ]
  ]

  lock-kept :
      (req : PageRequest) (lock : Value)
      → IsOutsider user ctx
      → ((k : ℕ) (d : Documentation) → found_page req ≡ some (k, d) → d.locked ≡ true)
      → (lock_page m repo ctx req lock user w).1 ≡ w
  unfolding lock_page
  lock-kept req lock h locked = elim (Bool-cases (str_eq req.path "")) [
    | inl e ↦ rw e refl
    | inr e ↦ elim (Option-cases (found_page req)) [
      | inl f ↦ rw (e, f) refl
      | inr ((k, d), f) ↦ rw (e, f, locked_refused user ctx false d h (locked k d f)) refl
    ]
  ]

  and-left : (a b : Bool) → (a && b) ≡ true → a ≡ true
  and-left a b e = ground (arith, e)

  -- Where every stored page of that path is locked, an outsider changes nothing: a post, a deletion and
  -- a change of the lock leave the database as it was.
  pub outsider_kept :
      (req : PageRequest) (lock : Value)
      → IsOutsider user ctx
      → AreLocked (page_query ctx (js2python_bool req.proprietary) req.language (with_md req.path))
      → ((post_page m repo ctx req user w).1 ≡ w)
        × ((delete_page m repo ctx req user w).1 ≡ w)
        × ((lock_page m repo ctx req lock user w).1 ≡ w)
  outsider_kept req lock h locked =
      let query = page_query ctx (js2python_bool req.proprietary) req.language (with_md req.path) in
      let found : (k : ℕ) (d : Documentation) → found_page req ≡ some (k, d) → d.locked ≡ true =
        λ k d f.
          let (stored, fits) = find_one-Sound m query w.documents k d f in locked k d stored fits in
      (
        post-kept req h (λ k d f.
            let (stored, fits) = find_one-Sound m (post_query req) w.documents k d f in
            locked k d stored
              (and-left (query d) (str_eq d.filename (basename (with_md req.path))) fits)),
        delete-kept req h found,
        lock-kept req lock h found,
      )
