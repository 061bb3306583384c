-- ===== src/Tests/Granting.antt =====
-- Witnesses for Grant.antt.
use puppypeer.Prelude.{◌≡◌, ◌≢◌, ◌↔◌, refl, true, List, [], ◌∷◌, codes, arith, text_eq, String}
use puppypeer.Grant.{normalize_path, trim, pop_slashes, skip_while, path_matches, text_starts_with}
use puppypeer.Grant.Match.{relative, IsBelow, path_matches_iff}

abbrev roles : List String
roles = "viewer" ∷ "guest" ∷ []

home_relative : relative (codes "/home/a/") ≡ codes "home/a"
unfolding normalize_path trim pop_slashes skip_while
home_relative = refl

home-nonempty : relative (codes "/home/a/") ≢ []
home-nonempty e = ground (arith, home_relative)

home-ne : codes "/home/a/" ≢ codes "*"
home-ne e = ground arith

path_matches_iff_example :
    (path_matches (codes "/home/a/") (codes "home\\a\\b") ≡ true)
    ↔ IsBelow (relative (codes "/home/a/")) (relative (codes "home\\a\\b"))
path_matches_iff_example =
    path_matches_iff (codes "/home/a/") (codes "home\\a\\b") home-nonempty home-ne

-- A path that leaves the granted folder matches.
leaves : path_matches (codes "/home/a") (codes "/home/a/../b") ≡ true
unfolding path_matches normalize_path trim pop_slashes skip_while text_starts_with text_eq
leaves = refl
