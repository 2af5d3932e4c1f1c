-- ===== src/Appliance/Routes.antt =====
-- scripts/mk_appliance.py: the routes of the files under the public directory.
use ws_pi.Base.{◌+◌, List, [], ◌∷◌, ◌++◌, Bool, false, ◌||◌, not, ◌==◌, if◌then◌else◌}
use ws_pi.Base.Bytes.{Bytes}
use ws_pi.Base.Texts.{Text, between, same_text}
use ws_pi.Base.Texts.Split.{join_with}
use ws_pi.Appliance.{PageRoute}

-- A path below the directory, as `rglob` and `pathlib` tell it: the parts of the relative path, the
-- suffix, what it is, and its bytes.
pub record PublicFile : Type 0 where
  pub parts : List Text
  pub suffix : Text
  pub is_symlink : Bool
  pub is_file : Bool
  pub contents : Bytes

-- `str.lower` of an ASCII text.
abbrev pub lower : Text → Text
lower [] = []
lower (c ∷ s) = (if between 65 90 c then c + 32 else c) ∷ lower s

abbrev pub octet_stream : Text
octet_stream =
    97 ∷ 112 ∷ 112 ∷ 108 ∷ 105 ∷ 99 ∷ 97 ∷ 116 ∷ 105 ∷ 111 ∷ 110 ∷ 47 ∷ 111 ∷ 99 ∷ 116 ∷ 101 ∷ 116
    ∷ 45 ∷ 115 ∷ 116 ∷ 114 ∷ 101 ∷ 97 ∷ 109 ∷ []

-- `MIME_TYPES`
abbrev pub mime_types : List (Text × Text)
mime_types =
    (
      (46 ∷ 104 ∷ 116 ∷ 109 ∷ 108 ∷ []),
      (116 ∷ 101 ∷ 120 ∷ 116 ∷ 47 ∷ 104 ∷ 116 ∷ 109 ∷ 108 ∷ 59 ∷ 32 ∷ 99 ∷ 104 ∷ 97 ∷ 114 ∷ 115
          ∷ 101 ∷ 116 ∷ 61 ∷ 117 ∷ 116 ∷ 102 ∷ 45 ∷ 56 ∷ []),
    )
    ∷ (
      (46 ∷ 104 ∷ 116 ∷ 109 ∷ []),
      (116 ∷ 101 ∷ 120 ∷ 116 ∷ 47 ∷ 104 ∷ 116 ∷ 109 ∷ 108 ∷ 59 ∷ 32 ∷ 99 ∷ 104 ∷ 97 ∷ 114 ∷ 115
          ∷ 101 ∷ 116 ∷ 61 ∷ 117 ∷ 116 ∷ 102 ∷ 45 ∷ 56 ∷ []),
    )
    ∷ ((46 ∷ 99 ∷ 115 ∷ 115 ∷ []), (116 ∷ 101 ∷ 120 ∷ 116 ∷ 47 ∷ 99 ∷ 115 ∷ 115 ∷ []))
    ∷ (
      (46 ∷ 106 ∷ 115 ∷ []),
      (97 ∷ 112 ∷ 112 ∷ 108 ∷ 105 ∷ 99 ∷ 97 ∷ 116 ∷ 105 ∷ 111 ∷ 110 ∷ 47 ∷ 106 ∷ 97 ∷ 118 ∷ 97 ∷ 115
          ∷ 99 ∷ 114 ∷ 105 ∷ 112 ∷ 116 ∷ []),
    )
    ∷ (
      (46 ∷ 106 ∷ 115 ∷ 111 ∷ 110 ∷ []),
      (97 ∷ 112 ∷ 112 ∷ 108 ∷ 105 ∷ 99 ∷ 97 ∷ 116 ∷ 105 ∷ 111 ∷ 110 ∷ 47 ∷ 106 ∷ 115 ∷ 111 ∷ 110
          ∷ []),
    )
    ∷ (
      (46 ∷ 116 ∷ 120 ∷ 116 ∷ []),
      (116 ∷ 101 ∷ 120 ∷ 116 ∷ 47 ∷ 112 ∷ 108 ∷ 97 ∷ 105 ∷ 110 ∷ 59 ∷ 32 ∷ 99 ∷ 104 ∷ 97 ∷ 114 ∷ 115
          ∷ 101 ∷ 116 ∷ 61 ∷ 117 ∷ 116 ∷ 102 ∷ 45 ∷ 56 ∷ []),
    )
    ∷ ((46 ∷ 112 ∷ 110 ∷ 103 ∷ []), (105 ∷ 109 ∷ 97 ∷ 103 ∷ 101 ∷ 47 ∷ 112 ∷ 110 ∷ 103 ∷ []))
    ∷ ((46 ∷ 106 ∷ 112 ∷ 103 ∷ []), (105 ∷ 109 ∷ 97 ∷ 103 ∷ 101 ∷ 47 ∷ 106 ∷ 112 ∷ 101 ∷ 103 ∷ []))
    ∷ (
      (46 ∷ 106 ∷ 112 ∷ 101 ∷ 103 ∷ []),
      (105 ∷ 109 ∷ 97 ∷ 103 ∷ 101 ∷ 47 ∷ 106 ∷ 112 ∷ 101 ∷ 103 ∷ []),
    )
    ∷ ((46 ∷ 103 ∷ 105 ∷ 102 ∷ []), (105 ∷ 109 ∷ 97 ∷ 103 ∷ 101 ∷ 47 ∷ 103 ∷ 105 ∷ 102 ∷ []))
    ∷ (
      (46 ∷ 115 ∷ 118 ∷ 103 ∷ []),
      (105 ∷ 109 ∷ 97 ∷ 103 ∷ 101 ∷ 47 ∷ 115 ∷ 118 ∷ 103 ∷ 43 ∷ 120 ∷ 109 ∷ 108 ∷ []),
    )
    ∷ (
      (46 ∷ 105 ∷ 99 ∷ 111 ∷ []),
      (105 ∷ 109 ∷ 97 ∷ 103 ∷ 101 ∷ 47 ∷ 120 ∷ 45 ∷ 105 ∷ 99 ∷ 111 ∷ 110 ∷ []),
    )
    ∷ (
      (46 ∷ 119 ∷ 101 ∷ 98 ∷ 112 ∷ []),
      (105 ∷ 109 ∷ 97 ∷ 103 ∷ 101 ∷ 47 ∷ 119 ∷ 101 ∷ 98 ∷ 112 ∷ []),
    )
    ∷ []

abbrev pub mime_of : List (Text × Text) → Text → Text
mime_of [] suffix = octet_stream
mime_of ((extension, mime) ∷ types) suffix =
    let rest = mime_of types suffix in if same_text extension suffix then mime else rest

unfoldable pub content_type_for : Text → Text
content_type_for suffix = mime_of mime_types (lower suffix)

abbrev pub is_hidden : List Text → Bool
is_hidden [] = false
is_hidden ([] ∷ parts) = is_hidden parts
is_hidden ((c ∷ part) ∷ parts) = (c == 46) || is_hidden parts

-- `index.html`
abbrev pub index_html : Text
index_html = 105 ∷ 110 ∷ 100 ∷ 101 ∷ 120 ∷ 46 ∷ 104 ∷ 116 ∷ 109 ∷ 108 ∷ []

-- The routes of one entry.
unfoldable pub routes_of : PublicFile → List PageRoute
unfolding content_type_for
routes_of e =
    let rel = join_with 47 e.parts in
    let mime = content_type_for e.suffix in
    let own : PageRoute = record { path = 47 ∷ rel; body = e.contents; mime = mime } in
    let top : PageRoute = record { path = 47 ∷ []; body = e.contents; mime = mime } in
    if e.is_symlink || not e.is_file
    then []
    else if is_hidden e.parts
    then []
    else if same_text rel index_html
    then own ∷ top ∷ []
    else own ∷ []

-- The entries come in the order of `sorted`.
unfoldable pub collect_routes : List PublicFile → List PageRoute
unfolding routes_of
collect_routes [] = []
collect_routes (e ∷ entries) = routes_of e ++ collect_routes entries
