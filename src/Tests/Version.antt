-- ===== src/Tests/Version.antt =====
-- The theorem on versions, of two prereleases.
use orchids_2api.Prelude.{◌≡◌, refl, some}
use orchids_2api.Prelude.Int.{pos, negsuc}
use orchids_2api.Version.{version_compare}
use orchids_2api.Version.Antisymmetric.{version_compare-opposite}

version_compare-opposite_example :
    (version_compare "1.2.0-rc.11" "v1.2.0-rc.2+build" ≡ some (pos 1))
    × (version_compare "v1.2.0-rc.2+build" "v1.2.0-rc.2+build" ≡ some (pos 0))
unfolding version_compare
version_compare-opposite_example =
    version_compare-opposite "v1.2.0-rc.2+build" "1.2.0-rc.11" (negsuc 0) refl
