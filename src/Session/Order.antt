-- ===== src/Session/Order.antt =====
-- The order by the triple, in which the queries sort the version rows.
use titan_tyr.Prelude.{◌≡◌, true, false, arith}
use titan_tyr.Versioning.{Version}
use titan_tyr.Session.Versions.{triple_above}

pub triple_irrefl : (v : Version) → triple_above v v ≡ false
unfolding triple_above
triple_irrefl v = ground arith

pub lower_trans :
    (t b w : Version)
    → triple_above b t ≡ false
    → triple_above w b ≡ false
    → triple_above w t ≡ false
unfolding triple_above
lower_trans t b w h k = ground arith

pub above_not : (t b : Version) → triple_above t b ≡ true → triple_above b t ≡ false
unfolding triple_above
above_not t b h = ground arith
