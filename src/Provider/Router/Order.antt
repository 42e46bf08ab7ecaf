-- ===== src/Provider/Router/Order.antt =====
-- Each policy is a total order on the capabilities.
use xenopus.Prelude.{◌≡◌, true, false, arith}
use xenopus.Prelude.Sort.{IsTotal}
use xenopus.Prelude.Text.{text_le-total, text_le_trans, text_le_antisymm}
use xenopus.Provider.Registry.{ModelCapability, key}
use xenopus.Provider.Router.{RoutingPolicy, cost_first, quality_first, precedes}

precedes-total :
    (p : RoutingPolicy) (a b : ModelCapability) → precedes p a b ≡ false → precedes p b a ≡ true
unfolding precedes
precedes-total cost_first a b h = ground (arith, text_le-total (key a) (key b))
precedes-total quality_first a b h = ground (arith, text_le-total (key a) (key b))
precedes-total _ a b h = ground (arith, text_le-total (key a) (key b))

precedes_trans :
    (p : RoutingPolicy) (a b c : ModelCapability)
    → precedes p a b ≡ true
    → precedes p b c ≡ true
    → precedes p a c ≡ true
unfolding precedes
precedes_trans cost_first a b c h k = ground (arith, text_le_trans (key a) (key b) (key c))
precedes_trans quality_first a b c h k = ground (arith, text_le_trans (key a) (key b) (key c))
precedes_trans _ a b c h k = ground (arith, text_le_trans (key a) (key b) (key c))

pub precedes-IsTotal : (p : RoutingPolicy) → IsTotal (precedes p)
precedes-IsTotal p = record { total = precedes-total p; trans = precedes_trans p }

-- Two capabilities that come before one another have one key.
pub precedes-key :
    (p : RoutingPolicy) (a b : ModelCapability)
    → precedes p a b ≡ true
    → precedes p b a ≡ true
    → key a ≡ key b
unfolding precedes
precedes-key cost_first a b h k = ground (arith, text_le_antisymm (key a) (key b))
precedes-key quality_first a b h k = ground (arith, text_le_antisymm (key a) (key b))
precedes-key _ a b h k = ground (arith, text_le_antisymm (key a) (key b))
