-- ===== src/Tests/Config.antt =====
-- The theorems on stored versions, run on the versions that the sources name.
use abrek_mouse.Config.Version.{version_lt, parse, component}
use abrek_mouse.Config.Version.Order.{Older, version_lt-Older}
use abrek_mouse.Config.Version.Padding.{version_lt-append_zero}
use abrek_mouse.Prelude.{◌≡◌, refl, ◌↔◌, true, [], ◌∷◌, ◌++◌, codes}

fourth_component : version_lt (codes "0.6.4") (codes "0.6.4.1") ≡ true
unfolding version_lt component
fourth_component = refl

beyond_int : version_lt (codes "99999999999") (codes "0.4.0") ≡ true
unfolding version_lt component
beyond_int = refl

version_lt-Older_example :
    (version_lt (codes "0.6.4") (codes "0.6.4.1") ≡ true)
    ↔ Older (0 ∷ 6 ∷ 4 ∷ []) (0 ∷ 6 ∷ 4 ∷ 1 ∷ [])
unfolding parse component
version_lt-Older_example = version_lt-Older (codes "0.6.4") (codes "0.6.4.1") refl refl

version_lt-append_zero_example :
    (version_lt (codes "0.4" ++ codes ".0") (codes "0.4.0")
      ≡ version_lt (codes "0.4") (codes "0.4.0"))
    × (version_lt (codes "0.4.0") (codes "0.4" ++ codes ".0")
        ≡ version_lt (codes "0.4.0") (codes "0.4"))
version_lt-append_zero_example = version_lt-append_zero (codes "0.4") (codes "0.4.0")
