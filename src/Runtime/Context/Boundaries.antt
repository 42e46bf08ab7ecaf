-- ===== src/Runtime/Context/Boundaries.antt =====
-- What the content-boundary markers do not hold in.
use xenopus.Prelude.{◌≡◌, refl, ap, String}
use xenopus.Prelude.Text.{join}
use xenopus.Runtime.Context.{wrap_untrusted, content_boundary_close}

join_assoc : (s t u : String) → join (join s t) u ≡ join s (join t u)
unfolding join
join_assoc String.[] t u = refl
join_assoc (String.◌∷◌ c s) t u = ap (String.◌∷◌ c) (join_assoc s t u)

-- Untrusted content that holds the closing marker ends the block itself: what it has after the marker
-- stands outside, as after any wrapped content.
wrap_untrusted-escapes :
    (inside outside : String)
    → wrap_untrusted (join inside (join "\n" (join content_boundary_close outside)))
      ≡ join (wrap_untrusted inside) (join outside (join "\n" content_boundary_close))
unfolding wrap_untrusted
wrap_untrusted-escapes inside outside = simp (join_assoc)
