-- ===== src/Tools/Registry/Catalog.antt =====
-- What the registry hands out: registration, quarantine and its lifting.
use xenopus.Prelude.{
  ◌≡◌, true, false, [], ◌∷◌, String, str_eq, str_eq_iff, ok, err, arith, Bool-cases, inl, inr,
  if◌then◌else◌,
}
use xenopus.Prelude.Dict.{Dict, insert, has, lookup-insert}
use xenopus.Tools.Contracts.{ToolContract, ToolHandler}
use xenopus.Tools.Registry.{
  ToolQuarantine, ToolRegistry, is_blocked, already_registered, is_quarantined, quarantine, lift,
  register, get,
}

is_quarantined-quarantine :
    (name j : String) (blocked : ToolQuarantine)
    → is_quarantined j (quarantine name blocked)
      ≡ (if str_eq name j then true else is_quarantined j blocked)
unfolding quarantine is_quarantined
is_quarantined-quarantine name j blocked = ground (arith, str_eq_iff name j)

is_quarantined-lift :
    (name j : String) (blocked : ToolQuarantine)
    → is_quarantined j (lift name blocked)
      ≡ (if str_eq name j then false else is_quarantined j blocked)
unfolding lift is_quarantined
is_quarantined-lift name j [] = ground arith
is_quarantined-lift name j (b ∷ bs) =
    ground
      (arith, is_quarantined-lift name j bs, str_eq_iff name j, str_eq_iff b name, str_eq_iff b j)

has-insert_self : {V : Type 0} (k : String) (v : V) (d : Dict V) → has k (insert k v d) ≡ true
unfolding has insert
has-insert_self k v [] = ground (arith, str_eq_iff k k)
has-insert_self k v ((j, w) ∷ d) = ground (arith, has-insert_self k v d)

module _ {V : Type 0} {W : Type 0} where
  -- After a name is quarantined, `get` refuses it, whether it is registered or not, and answers for
  -- every other name as before.
  pub get-quarantine :
      (name j : String) (r : ToolRegistry V W)
      → get j (record r { blocked = quarantine name r.blocked })
        ≡ (if str_eq name j then err is_blocked else get j r)
  unfolding get
  get-quarantine name j r = ground (arith, is_quarantined-quarantine name j r.blocked)

  -- Lifting a quarantine undoes it: a tool that was not blocked before is handed out again.
  pub get-lift :
      (name : String) (r : ToolRegistry V W)
      → is_quarantined name r.blocked ≡ false
      → get name (record r { blocked = lift name (quarantine name r.blocked) }) ≡ get name r
  unfolding get
  get-lift name r free =
      ground
        (arith, is_quarantined-lift name name (quarantine name r.blocked), str_eq_iff name name)

  -- A registered tool that is not quarantined is handed out with its own contract and handler, and a
  -- second registration under its name is refused and changes nothing.
  pub get-register :
      (contract other : ToolContract) (handler handler' : ToolHandler V W) (r : ToolRegistry V W)
      → (register contract handler r).0 ≡ ok tt
      → is_quarantined contract.name r.blocked ≡ false
      → other.name ≡ contract.name
      → (get contract.name (register contract handler r).1 ≡ ok (contract, handler))
        × (register other handler' (register contract handler r).1
            ≡ (err already_registered, (register contract handler r).1))
  unfolding get register
  get-register contract other handler handler' r fine free same =
      elim (Bool-cases (has contract.name r.tools)) [
        | inl taken ↦ cc (rw taken at fine)
        | inr fresh ↦ rw fresh (
          ground (
            arith,
            lookup-insert contract.name contract.name (contract, handler) r.tools,
            str_eq_iff contract.name contract.name,
          ),
          ground (arith, has-insert_self contract.name (contract, handler) r.tools),
        )
      ]
