-- ===== src/Checks/Appliance.antt =====
-- scripts/mk_appliance.py on a small layout.
use ws_pi.Base.{
  ℕ, ◌+◌, ◌≤◌, ◌≡◌, ◌⊎◌, refl, arith, List, [], ◌∷◌, ◌++◌, true, false, ok, length, take, drop,
  replicate, All,
}
use ws_pi.Base.Bytes.{Bytes, le32}
use ws_pi.Appliance.{
  Layout, PageRoute, content_off, slab_size, magic_none, starts_with, find_slab_offset,
  verify_kernel_ksize, build_slab, package_image, digits,
}
use ws_pi.Appliance.Routes.{PublicFile, collect_routes}
use ws_pi.Appliance.Slab.{contents}
use ws_pi.Appliance.Built.{Fits}
use ws_pi.Appliance.Served.{Holds, build_slab-Holds}
use ws_pi.Appliance.Marker.{find_slab_offset_unique, package_image-Holds}
use ws_pi.Appliance.Published.{ServesOne, Published, collect_routes-publishes}

abbrev small : Layout
small = record { max_routes = 2; content_max = 200 }

-- The file `index.html`, which holds `hi`.
abbrev index : PublicFile
index = record {
  parts = (105 ∷ 110 ∷ 100 ∷ 101 ∷ 120 ∷ 46 ∷ 104 ∷ 116 ∷ 109 ∷ 108 ∷ []) ∷ [];
  suffix = 46 ∷ 104 ∷ 116 ∷ 109 ∷ 108 ∷ [];
  is_symlink = false;
  is_file = true;
  contents = 104 ∷ 105 ∷ [];
}

-- A file whose name starts with a dot.
abbrev dot_file : PublicFile
dot_file = record index { parts = (46 ∷ 103 ∷ 105 ∷ 116 ∷ []) ∷ []; suffix = [] }

collect_routes-publishes_example :
    All (ServesOne (dot_file ∷ index ∷ [])) (collect_routes (dot_file ∷ index ∷ []))
    × All (Published (collect_routes (dot_file ∷ index ∷ []))) (dot_file ∷ index ∷ [])
collect_routes-publishes_example = collect_routes-publishes (dot_file ∷ index ∷ [])

-- One route, `/a`, of plain text.
abbrev one_route : List PageRoute
one_route =
    record {
      path = 47 ∷ 97 ∷ [];
      body = 104 ∷ 105 ∷ [];
      mime = 116 ∷ 101 ∷ 120 ∷ 116 ∷ 47 ∷ 112 ∷ 108 ∷ 97 ∷ 105 ∷ 110 ∷ [];
    }
    ∷ []

one_route-Fits : Fits small one_route
unfolding digits
one_route-Fits = record {
  pages = (record { path_ascii = refl; path_fits = omega arith; mime_ascii = refl }, tt);
  routes_fit = omega arith;
  content_fits = omega arith;
  layout_small = omega arith;
}

build_slab-Holds_example :
    (slab : Bytes) × (build_slab small one_route ≡ ok slab) × Holds small one_route slab
build_slab-Holds_example = build_slab-Holds small one_route one_route-Fits

-- Three bytes of code, and the blank slab with its size.
abbrev kernel : Bytes
kernel = 1 ∷ 2 ∷ 3 ∷ (magic_none ++ (replicate 12 0 ++ (le32 320 ++ replicate 296 0)))

abbrev start : ℕ
start = 3

kernel-found : find_slab_offset small kernel ≡ ok start
unfolding find_slab_offset
kernel-found = refl

kernel-checked : verify_kernel_ksize small kernel start ≡ ok tt
unfolding verify_kernel_ksize
kernel-checked = refl

find_slab_offset_unique_example :
    (starts_with magic_none (drop start kernel) ≡ true)
    × ((0 ≡ start) ⊎ (starts_with magic_none (drop 0 kernel) ≡ false))
    × (start + slab_size small ≤ length kernel)
find_slab_offset_unique_example = find_slab_offset_unique small kernel start 0 kernel-found

package_image-Holds_example :
    (slab : Bytes) × Holds small one_route slab
    × (package_image small kernel one_route
        ≡ ok (take start kernel ++ take (content_off small + length (contents one_route)) slab))
package_image-Holds_example =
    package_image-Holds small kernel one_route start kernel-found kernel-checked one_route-Fits
