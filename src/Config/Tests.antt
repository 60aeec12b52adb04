-- ===== src/Config/Tests.antt =====
-- A small configuration, and the theorems at it.
use toyotaview.Config.FlagSet.{flag_set}
use toyotaview.Config.FlagSet.Laws.{names_of}
use toyotaview.Config.Load.{load, checked, normalize_flags}
use toyotaview.Config.Load.Values.{load-values}
use toyotaview.Common.{IsDistinct, none, [], ◌∷◌, str, All, ◌↔◌, ◌≡◌, refl}
use toyotaview.Common.Text.{trim_space, skip_space, start_width, end_width}
use toyotaview.Config.Demo.{
  demo_library, demo, demo_parsers, demo_flags, demo_values, demo_defaults, demo_defaults-known,
  load-demo,
}
use toyotaview.Config.Values.Laws.{IsPart}
use toyotaview.Config.Load.Laws.{IsReady, load-IsReady}
use toyotaview.Config.Validate.{validate}
use toyotaview.Config.Validate.Laws.{IsValid, validate-none}

validate-none_example : (validate demo_library demo ≡ none) ↔ IsValid demo_library demo
validate-none_example = validate-none demo_library demo

two_codes-IsPart : All IsPart (str "odometer" ∷ str "range" ∷ [])
unfolding trim_space skip_space start_width end_width
two_codes-IsPart = ((refl, refl), ((refl, refl), tt))

load-IsReady_example : IsReady demo_library demo
load-IsReady_example = load-IsReady demo_parsers demo_library demo_flags [] [] demo load-demo

load-values_example :
    IsDistinct (names_of (flag_set demo_defaults))
    × (load demo_parsers demo_library demo_flags [] []
        ≡ checked demo_parsers demo_library demo_flags
            (normalize_flags demo_parsers demo_library demo_flags demo_values))
load-values_example =
    load-values demo_parsers demo_library demo_flags [] [] demo_defaults demo_values
      demo_defaults-known refl
