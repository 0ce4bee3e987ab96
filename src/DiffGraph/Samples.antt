-- ===== src/DiffGraph/Samples.antt =====
-- Small inputs for the tests.
use kapp.Prelude.{String, List, [], ◌∷◌, true, false, Result, err, none}
use kapp.Resources.Json.{end}
use kapp.Resources.Resource.{Resource}
use kapp.Config.Matchers.{resource_matcher, ResourceMatchers, nil, cons, absent, no_matcher}
use kapp.Config.Bindings.{ChangeRuleBinding}
use kapp.DiffGraph.Errors.{Error, crd_unreadable, Vendored}
use kapp.DiffGraph.Rule.{ChangeRule}
use kapp.DiffGraph.Change.{ActualChange, upsert, noop}
use kapp.DiffGraph.Graph.{Memory, ChangeGraph}
use kapp.DiffGraph.Build.{alloc_changes, new_change_graph}

-- Every name is qualified, and no custom resource definition can be read.
abbrev pub vendored : Vendored
vendored = record {
  is_qualified_name = λ _. [];
  max_len_error = λ _. "must be no more than 63 characters";
  crd_contents = λ _. err (crd_unreadable "no definition");
}

abbrev pub resource : String → String → List (String × String) → Resource
resource kind name annotations = record {
  kind = kind;
  api_version = "v1";
  api_group = "";
  namespace = "";
  name = name;
  description = name;
  annotations = annotations;
  labels = [];
  finalizers = [];
  is_deleting = false;
  uid = "";
  transient = false;
  origin = "";
  object = end;
}

abbrev pub app_change : ActualChange
app_change = record {
  resource =
      resource "Deployment" "app"
        (("kapp.k14s.io/change-rule", "upsert after upserting {name}-db") ∷ []);
  op = upsert;
}

abbrev pub db_change : ActualChange
db_change = record {
  resource = resource "StatefulSet" "db" (("kapp.k14s.io/change-group", "app-db") ∷ []);
  op = upsert;
}

abbrev pub idle_change : ActualChange
idle_change = record { resource = resource "ConfigMap" "idle" []; op = noop }

abbrev pub everything : ResourceMatchers
everything =
    cons
      (resource_matcher true absent no_matcher absent (record {
        api_group_kind = none;
        api_version_kind = none;
        kind_namespace_name = none;
        has_annotation = none;
        has_namespace = none;
        custom_resource = false;
        empty_field = none;
      }))
      nil

-- A rule for all resources that would make the database wait for itself, if it were required.
abbrev pub rule_bindings : List ChangeRuleBinding
rule_bindings =
    record {
      rules = "upsert after upserting app-db" ∷ [];
      ignore_if_cyclical = true;
      resource_matchers = everything;
    }
    ∷ []

abbrev pub blank : Memory
blank _ = record {
  change = idle_change;
  waiting_for = [];
  change_group_bindings = [];
  change_rule_bindings = [];
}

abbrev pub changes : List ActualChange
changes = app_change ∷ db_change ∷ idle_change ∷ []

abbrev pub built : Result Error (Unit {0}) × ChangeGraph
built = new_change_graph vendored blank changes [] rule_bindings

abbrev pub start : ChangeGraph
start = alloc_changes [] rule_bindings 0 changes blank

abbrev pub app_rule : ChangeRule
app_rule = record {
  action = "upsert";
  order = "after";
  target_action = "upserting";
  target_group = record { name = "app-db" };
  ignore_if_cyclical = false;
  weight = 0;
}
