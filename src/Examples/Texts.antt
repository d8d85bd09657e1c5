-- ===== src/Examples/Texts.antt =====
-- Versions: their order and their text.
use titan_tyr.Prelude.{ℕ, ◌≡◌, refl, true, not, ◌&&◌, none, some, List, if◌then◌else◌}
use titan_tyr.Versioning.{is_digit, Version, is_prerelease}
use titan_tyr.Versioning.Text.{parse, show}
use titan_tyr.Versioning.RoundTrip.{parse-show}
use titan_tyr.Texts.{codes}

abbrev rc : List ℕ → Version
rc n = record { major = 10; minor = 0; patch = 12; prerelease = some n }

parse-show_example :
    parse true (show (rc (codes "2")))
    ≡ (if is_prerelease (rc (codes "2")) && not true then none else some (rc (codes "2")))
unfolding is_digit
parse-show_example = parse-show true (rc (codes "2")) (tt, (refl, tt))
