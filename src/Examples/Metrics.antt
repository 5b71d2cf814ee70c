-- ===== src/Examples/Metrics.antt =====
-- The theorems on the metrics at a concrete library and a concrete server.
use openspoke.Common.{◌≡◌, refl, none, List, [], ◌∷◌, ok, err, if◌then◌else◌}
use openspoke.Common.Eq.{list_eq, nat_eq}
use openspoke.Common.Dict.{contains}
use openspoke.Common.Text.{Text, codes}
use openspoke.Server.Metrics.Register.{
  MetricsLibrary, Contract, is_described, registry, descriptions, names_after, registry-ok,
}
use openspoke.Server.Metrics.Labels.{IsLabelled}
use openspoke.Server.Program.{new_service, serve_calls, main}
use openspoke.Server.Program.Touches.{server_main-IsLabelled}
use openspoke.Examples.Configs.{hub_env, loaded, hub_loads}
use openspoke.Examples.Connection.{free_system, calls}
use openspoke.Examples.Data.{kernel}

-- A registry that is the list of its names, and shows nothing.
abbrev names_only : MetricsLibrary (List Text)
names_only = record {
  empty = [];
  register = λ d names.
      if is_described d
      then if contains d.name names then err (codes "taken") else ok (d.name ∷ names)
      else err (codes "not valid");
  rendered = λ r m. [];
  from_utf8 = λ b. none;
}

abbrev names_only_contract : Contract names_only
names_only_contract = record {
  names = λ r. r;
  names_of_empty = refl;
  accepts = λ d r v free. (d.name ∷ r, rw (v, free) refl, refl);
}

registry-ok_example :
    (r : List Text) × (registry names_only ≡ ok r) × (r ≡ names_after descriptions [])
registry-ok_example = registry-ok names_only names_only_contract

server_main-IsLabelled_example :
    let s = serve_calls kernel loaded (λ port. none) calls new_service in
    (main free_system hub_env calls ≡ ok s) × IsLabelled s.metrics
server_main-IsLabelled_example =
    server_main-IsLabelled free_system hub_env loaded kernel calls hub_loads refl refl
