-- ===== src/Appliance/Published.antt =====
-- Which files become routes.
use ws_pi.Base.{
  ◌≡◌, ◌⊎◌, inl, inr, refl, arith, List, [], ◌∷◌, ◌++◌, true, false, not, ◌||◌, All, All-append,
}
use ws_pi.Base.{Bool-cases}
use ws_pi.Base.Texts.{Text, same_text}
use ws_pi.Base.Texts.Split.{join_with}
use ws_pi.Appliance.{PageRoute}
use ws_pi.Appliance.Routes.{
  PublicFile, is_hidden, index_html, content_type_for, routes_of, collect_routes,
}

-- The entry is a regular file, no symbolic link, and no part of its path starts with a dot.
pub record IsOpen (e : PublicFile) : Type 0 where
  pub not_linked : e.is_symlink ≡ false
  pub regular : e.is_file ≡ true
  pub not_hidden : is_hidden e.parts ≡ false

-- The route serves the entry's bytes and type, at the entry's path or, for `index.html` at the top, at `/`.
pub record Serves (e : PublicFile) (r : PageRoute) : Type 0 where
  pub open_entry : IsOpen e
  pub same_body : r.body ≡ e.contents
  pub same_type : r.mime ≡ content_type_for e.suffix
  pub at_path :
      (r.path ≡ 47 ∷ join_with 47 e.parts)
      ⊎ ((r.path ≡ 47 ∷ []) × (same_text (join_with 47 e.parts) index_html ≡ true))

-- One of the entries is served by the route.
abbrev pub ServesOne : List PublicFile → PageRoute → Type 0
ServesOne [] r = ⊥
ServesOne (e ∷ entries) r = Serves e r ⊎ ServesOne entries r

routes_of-Serves : (e : PublicFile) → All (Serves e) (routes_of e)
unfolding routes_of
routes_of-Serves e = elim (Bool-cases (e.is_symlink || not e.is_file)) [
  | inl skipped ↦ rw skipped tt
  | inr taken ↦ elim (Bool-cases (is_hidden e.parts)) [
    | inl hidden ↦ rw (taken, hidden) tt
    | inr shown ↦
        let open_entry : IsOpen e = record {
          not_linked = ground (arith, taken);
          regular = ground (arith, taken);
          not_hidden = shown;
        } in
        let rel = join_with 47 e.parts in
        let own : Serves e
            (record { path = 47 ∷ rel; body = e.contents; mime = content_type_for e.suffix }) =
          record {
            open_entry = open_entry;
            same_body = refl;
            same_type = refl;
            at_path = inl refl;
          } in
        elim (Bool-cases (same_text rel index_html)) [
          | inr other ↦ rw (taken, shown, other) (own, tt)
          | inl index ↦
              let top : Serves e
                  (record { path = 47 ∷ []; body = e.contents; mime = content_type_for e.suffix }) =
                record {
                  open_entry = open_entry;
                  same_body = refl;
                  same_type = refl;
                  at_path = inr (refl, index);
                } in
              rw (taken, shown, index) (own, (top, tt))
        ]
  ]
]

All-map :
    {P Q : PageRoute → Type 0} (rs : List PageRoute)
    → ((r : PageRoute) → P r → Q r)
    → All P rs
    → All Q rs
All-map [] f h = tt
All-map (r ∷ rs) f h = (f r h.0, All-map rs f h.1)

collect_routes-Serves :
    (entries : List PublicFile) → All (ServesOne entries) (collect_routes entries)
unfolding collect_routes
collect_routes-Serves [] = tt
collect_routes-Serves (e ∷ entries) =
    All-append (ServesOne (e ∷ entries)) (routes_of e) (collect_routes entries)
      (All-map (routes_of e) (λ r s. inl s) (routes_of-Serves e))
      (All-map (collect_routes entries) (λ r s. inr s) (collect_routes-Serves entries))

-- One of the routes, at `path`, serves the entry.
abbrev pub OfferedAt : Text → PublicFile → List PageRoute → Type 0
OfferedAt path e [] = ⊥
OfferedAt path e (r ∷ rs) = ((r.path ≡ path) × Serves e r) ⊎ OfferedAt path e rs

OfferedAt-append_left :
    (path : Text) (e : PublicFile) (rs ss : List PageRoute)
    → OfferedAt path e rs
    → OfferedAt path e (rs ++ ss)
OfferedAt-append_left path e [] ss h = absurd h
OfferedAt-append_left path e (r ∷ rs) ss (inl s) = inl s
OfferedAt-append_left path e (r ∷ rs) ss (inr o) = inr (OfferedAt-append_left path e rs ss o)

OfferedAt-append_right :
    (path : Text) (e : PublicFile) (rs ss : List PageRoute)
    → OfferedAt path e ss
    → OfferedAt path e (rs ++ ss)
OfferedAt-append_right path e [] ss h = h
OfferedAt-append_right path e (r ∷ rs) ss h = inr (OfferedAt-append_right path e rs ss h)

-- What becomes of an entry: it is withheld as no open entry, or it is offered at its own path and, if
-- it is `index.html` at the top, at `/` too.
pub data Published (rs : List PageRoute) (e : PublicFile) : Type 0 where
  withheld : ¬ IsOpen e → Published rs e
  offered :
      IsOpen e
      → OfferedAt (47 ∷ join_with 47 e.parts) e rs
      → (same_text (join_with 47 e.parts) index_html ≡ false) ⊎ OfferedAt (47 ∷ []) e rs
      → Published rs e

Published-append_left :
    (rs ss : List PageRoute) (e : PublicFile) → Published rs e → Published (rs ++ ss) e
Published-append_left rs ss e (withheld closed) = withheld closed
Published-append_left rs ss e (offered v own (inl other)) =
    offered v (OfferedAt-append_left _ e rs ss own) (inl other)
Published-append_left rs ss e (offered v own (inr top)) =
    offered v (OfferedAt-append_left _ e rs ss own) (inr (OfferedAt-append_left _ e rs ss top))

Published-append_right :
    (rs ss : List PageRoute) (e : PublicFile) → Published ss e → Published (rs ++ ss) e
Published-append_right rs ss e (withheld closed) = withheld closed
Published-append_right rs ss e (offered v own (inl other)) =
    offered v (OfferedAt-append_right _ e rs ss own) (inl other)
Published-append_right rs ss e (offered v own (inr top)) =
    offered v (OfferedAt-append_right _ e rs ss own) (inr (OfferedAt-append_right _ e rs ss top))

routes_of-Published : (e : PublicFile) → Published (routes_of e) e
unfolding routes_of
routes_of-Published e = elim (Bool-cases (e.is_symlink || not e.is_file)) [
  | inl skipped ↦
      withheld
        (λ v. let linked = v.not_linked in let regular = v.regular in ground (arith, skipped))
  | inr taken ↦ elim (Bool-cases (is_hidden e.parts)) [
    | inl hidden ↦ withheld (λ v. let shown = v.not_hidden in cc)
    | inr shown ↦
        let rel = join_with 47 e.parts in
        let v : IsOpen e = record {
          not_linked = ground (arith, taken);
          regular = ground (arith, taken);
          not_hidden = shown;
        } in
        let serves : (path : Text)
            → (path ≡ 47 ∷ rel) ⊎ ((path ≡ 47 ∷ []) × (same_text rel index_html ≡ true))
            → Serves e
                (record { path = path; body = e.contents; mime = content_type_for e.suffix }) =
          λ path at. record { open_entry = v; same_body = refl; same_type = refl; at_path = at } in
        elim (Bool-cases (same_text rel index_html)) [
          | inr other ↦
              offered v (rw (taken, shown, other) (inl (refl, serves (47 ∷ rel) (inl refl))))
                (inl other)
          | inl index ↦
              offered v (rw (taken, shown, index) (inl (refl, serves (47 ∷ rel) (inl refl)))) (
                inr (
                  rw (taken, shown, index)
                    (inr (inl (refl, serves (47 ∷ []) (inr (refl, index)))))))
        ]
  ]
]

All-Published :
    (rs ss : List PageRoute) (entries : List PublicFile)
    → All (Published ss) entries
    → All (Published (rs ++ ss)) entries
All-Published rs ss [] h = tt
All-Published rs ss (e ∷ entries) h =
    (Published-append_right rs ss e h.0, All-Published rs ss entries h.1)

collect_routes-Published :
    (entries : List PublicFile) → All (Published (collect_routes entries)) entries
unfolding collect_routes
collect_routes-Published [] = tt
collect_routes-Published (e ∷ entries) = (
  Published-append_left (routes_of e) (collect_routes entries) e (routes_of-Published e),
  All-Published (routes_of e) (collect_routes entries) entries (collect_routes-Published entries),
)

-- Whatever the entries are, every route that `collect_routes` returns serves the bytes and the type of
-- one of them, which is a regular file, no symbolic link and not hidden, at its own path or, for
-- `index.html` at the top, at `/`. And every entry of that kind is served by one of the routes at its
-- own path, and `index.html` at the top by another at `/`.
pub collect_routes-publishes :
    (entries : List PublicFile)
    → All (ServesOne entries) (collect_routes entries)
      × All (Published (collect_routes entries)) entries
collect_routes-publishes entries = (collect_routes-Serves entries, collect_routes-Published entries)
