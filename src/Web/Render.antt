-- ===== src/Web/Render.antt =====
-- web/render.go: the templates of the pages. html/template is a parameter: what it parses from a file,
-- together with layout.html, and what a template makes of a view.
use xensus.Base.{
  ℕ, ◌≡◌, refl, Bool-cases, inl, inr, Option, none, some, Option-cases, List, [], ◌∷◌, Text, codes,
  text_eq, if◌then◌else◌,
}
use xensus.Registry.{◌>>=◌}
use xensus.Web.Page.{Page, internal}
use xensus.Web.Views.{
  View, persons_list, person_detail, systems_list, system_detail, disabled_systems, stewards, audit,
}

-- The name under which a handler asks for its page.
abbrev pub page_name : View → Text
page_name (persons_list v) = codes "persons_list"
page_name (person_detail v) = codes "person_detail"
page_name (systems_list v) = codes "systems_list"
page_name (system_detail v) = codes "system_detail"
page_name (disabled_systems v) = codes "disabled_systems"
page_name (stewards v) = codes "stewards"
page_name (audit v) = codes "audit"

-- `pageFiles`
abbrev pub page_files : List (Text × Text)
page_files =
    (codes "persons_list", codes "templates/persons_list.html")
    ∷ (codes "person_detail", codes "templates/person_detail.html")
    ∷ (codes "systems_list", codes "templates/systems_list.html")
    ∷ (codes "system_detail", codes "templates/system_detail.html")
    ∷ (codes "disabled_systems", codes "templates/disabled_systems.html")
    ∷ (codes "stewards", codes "templates/stewards.html")
    ∷ (codes "audit", codes "templates/audit.html")
    ∷ []

-- The entry of a Go map under a key.
unfoldable pub find_page : {T : Type 0} → Text → List (Text × T) → Option T
find_page name [] = none
find_page name ((key, t) ∷ rest) =
    let later = find_page name rest in if text_eq name key then some t else later

unfoldable pub parse_pages :
    {T : Type 0} → (Text → Option T) → List (Text × Text) → Option (List (Text × T))
parse_pages parse [] = some []
parse_pages parse ((name, file) ∷ rest) = do
  t ← parse file
  pages ← parse_pages parse rest
  some ((name, t) ∷ pages)

-- `newRenderer`
abbrev pub new_renderer : {T : Type 0} → (Text → Option T) → Option (List (Text × T))
new_renderer parse = parse_pages parse page_files

abbrev pub written : ℕ → Option Text → Page
written status none = internal
written status (some html) = record { status = status; location = []; message = []; html = html }

abbrev pub rendered : {T : Type 0} → (T → View → Option Text) → ℕ → View → Option T → Page
rendered execute status view none = internal
rendered execute status view (some t) = written status (execute t view)

-- `render`
unfoldable pub render : {T : Type 0} → (T → View → Option Text) → List (Text × T) → ℕ → View → Page
render execute pages status view = rendered execute status view (find_page (page_name view) pages)

-- The template under a name is the one of the file under that name.
parse_pages-find :
    {T : Type 0} (parse : Text → Option T) (name file : Text) (files : List (Text × Text))
    (pages : List (Text × T))
    → parse_pages parse files ≡ some pages
    → find_page name files ≡ some file
    → (t : T) × (parse file ≡ some t) × (find_page name pages ≡ some t)
unfolding parse_pages find_page
parse_pages-find parse name file [] pages e found = absurd (let e' = found in cc)
parse_pages-find {T} parse name file ((key, f) ∷ files) pages e found =
    elim (Option-cases (parse f)) [
      | inl bad ↦ absurd (let e' = (rw bad at e) in cc)
      | inr (t, good) ↦ elim (Option-cases (parse_pages parse files)) [
        | inl bad ↦ absurd (let e' = (rw (good, bad) at e) in cc)
        | inr (ts, rest) ↦
            let same : (key, t) ∷ ts ≡ pages = let e' = (rw (good, rest) at e) in cc in
            rw (← same) (elim (Bool-cases (text_eq name key)) [
              | inl here ↦
                  let found' = (rw here at found) in
                  let file_is : f ≡ file = cc in rw here (t, rw (← file_is) good, refl)
              | inr there ↦
                  let found' = (rw there at found) in
                  rw there (parse_pages-find parse name file files ts rest found')
            ])
      ]
    ]

-- The template file of each view.
abbrev pub template_of : View → Text
template_of (persons_list v) = codes "templates/persons_list.html"
template_of (person_detail v) = codes "templates/person_detail.html"
template_of (systems_list v) = codes "templates/systems_list.html"
template_of (system_detail v) = codes "templates/system_detail.html"
template_of (disabled_systems v) = codes "templates/disabled_systems.html"
template_of (stewards v) = codes "templates/stewards.html"
template_of (audit v) = codes "templates/audit.html"

page_file : (view : View) → find_page (page_name view) page_files ≡ some (template_of view)
unfolding find_page text_eq
page_file (persons_list v) = refl
page_file (person_detail v) = refl
page_file (systems_list v) = refl
page_file (system_detail v) = refl
page_file (disabled_systems v) = refl
page_file (stewards v) = refl
page_file (audit v) = refl

-- The page that a template's HTML makes, or the one of the status 500 where the template fails.
pub data Answers : ℕ → Option Text → Page → Type 0 where
  whole :
      {status : ℕ}
      → (html : Text)
      → Answers status
          (some html)
          (record { status = status; location = []; message = []; html = html })
  broken :
      {status : ℕ}
      → Answers status none
          (record { status = 500; location = []; message = codes "internal error"; html = [] })

written-Answers : (status : ℕ) (out : Option Text) → Answers status out (written status out)
written-Answers status none = broken
written-Answers status (some html) = whole html

-- Where the templates were parsed, every view is rendered by the template that was parsed from the
-- view's own file: the page has the given status and the template's HTML, or, where the template
-- fails, the status 500, the message "internal error" and no HTML.
pub render-IsComplete :
    {T : Type 0} (parse : Text → Option T) (execute : T → View → Option Text)
    (pages : List (Text × T)) (status : ℕ) (view : View)
    → new_renderer parse ≡ some pages
    → (t : T) × (parse (template_of view) ≡ some t)
      × Answers status (execute t view) (render execute pages status view)
unfolding render
render-IsComplete parse execute pages status view e =
    let (t, parsed, found) =
      parse_pages-find parse (page_name view) (template_of view) page_files pages e
        (page_file view) in
    (t, parsed, rw found (written-Answers status (execute t view)))
