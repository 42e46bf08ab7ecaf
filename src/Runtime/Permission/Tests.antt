-- ===== src/Runtime/Permission/Tests.antt =====
-- The theorems on `PermissionEngine` at small inputs.
use xenopus.Prelude.{◌≡◌, refl, true, none, some, [], ◌∷◌, if◌then◌else◌}
use xenopus.Runtime.Permission.{
  PermissionRequest, PermissionRule, PermissionEngine, allow, ask, matches, decide, add_rule,
}
use xenopus.Runtime.Permission.Decisions.{decide-add_rule_prepend}

abbrev read_rule : PermissionRule
read_rule = record {
  decision = allow;
  subject = none;
  action = some "files.read";
  resource = none;
  tool = none;
}

abbrev ask_rule : PermissionRule
ask_rule = record {
  decision = ask;
  subject = some "agent";
  action = none;
  resource = none;
  tool = none;
}

abbrev engine : PermissionEngine
engine = read_rule ∷ ask_rule ∷ []

abbrev write_request : PermissionRequest
write_request = record {
  subject = "agent";
  action = "files.write";
  resource = none;
  tool = some "file_write";
}

write_asks : decide engine write_request ≡ ask
unfolding decide
write_asks = refl

decide-add_rule_prepend_example :
    decide (add_rule ask_rule true engine) write_request
    ≡ (if matches ask_rule write_request then ask else decide engine write_request)
decide-add_rule_prepend_example = decide-add_rule_prepend ask_rule engine write_request
