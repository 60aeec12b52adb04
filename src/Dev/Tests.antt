-- ===== src/Dev/Tests.antt =====
-- The mocked backend on small inputs, and its theorems there.
use toyotaview.Common.{ℕ, pos, Option, none, List, [], ◌∷◌, Str, str, GoError, ok, Time}
use toyotaview.Store.{new_memory_store}
use toyotaview.App.Types.{State, Service}
use toyotaview.Dev.Outcomes.{build_partial_outcomes}
use toyotaview.Dev.Outcomes.Laws.{IsAssigned, build_partial_outcomes-IsAssigned}
use toyotaview.Dev.Values.{Library}
use toyotaview.Dev.Backend.{Backend}

abbrev some_codes : List Str
some_codes = str "diagnostics-dtclist" ∷ str " range " ∷ str "range" ∷ str "oil" ∷ str "mil" ∷ []

abbrev demo_values : Library
demo_values = record {
  floats = record {
    add = λ a b. a;
    sub = λ a b. a;
    mul = λ a b. a;
    div = λ a b. a;
    to_int = λ a. pos a;
    of_int = λ n. 0;
  };
  marshal = λ v. ok (str "{}");
}

abbrev demo_now : ℕ → Time
demo_now w = pos 63_917_208_000_000_000_000

abbrev never_done : ℕ → Option GoError
never_done w = none

abbrev demo_backend : Backend
demo_backend = record {
  scenario = str "partial";
  partial_outcomes = build_partial_outcomes some_codes;
  unit_system = str "imperial";
}

abbrev demo_service : Service
demo_service = record {
  cfg = record {
    client_id = [];
    client_secret = [];
    user_id = str "u";
    iam_base_url = [];
    vehicle_base_url = [];
    vehicle_ids = [];
    signal_codes = some_codes;
    unit_system = str "imperial";
    timeout = pos 1;
    max_retries = pos 2;
  };
  allowed_vehicle_ids = [];
}

abbrev demo_state : State ℕ
demo_state = record { world = 0; store = new_memory_store; events = [] }

build_partial_outcomes-IsAssigned_example :
    IsAssigned some_codes (build_partial_outcomes some_codes)
build_partial_outcomes-IsAssigned_example = build_partial_outcomes-IsAssigned some_codes
