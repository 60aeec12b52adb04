-- ===== src/Config/Load/Laws.antt =====
-- What a configuration that Load returns satisfies, and its default signal codes.
use toyotaview.Common.{List, Str, Map, Result, ok, err, Option-cases, All, ◌≡◌, subst, inl, inr}
use toyotaview.Config.Types.{Config}
use toyotaview.Config.Values.Laws.{IsPart, parse_csv-IsPart}
use toyotaview.Config.FlagSet.{Definition, flag_set}
use toyotaview.Config.FlagSet.Fields.{flags_of}
use toyotaview.Config.Defaults.{Parsers, Flags, flag_defaults}
use toyotaview.Config.Validate.{Library, validate}
use toyotaview.Config.Validate.Laws.{IsValid, validate-none}
use toyotaview.Config.Load.{
  Parsed, parsed, help, refused, Loaded, loaded, help_error, failed, normalize_flags, checked,
  after_parse, after_defaults, load,
}

-- A configuration that the program may start with: it is valid, and its lists are clean.
pub record IsReady (lib : Library) (c : Config) : Type 0 where
  pub is_valid : IsValid lib c
  pub vehicle_ids_clean : All IsPart c.smartcar.vehicle_ids
  pub signal_codes_clean : All IsPart c.smartcar.signal_codes

module _ (parsers : Parsers) (lib : Library)
    (parse_flags : List Definition → List Str → Parsed) where
  abbrev Ready : Loaded → Type 0
  Ready (loaded c) = IsReady lib c
  Ready (help_error usage) = Unit {0}
  Ready (failed e) = Unit {0}

  Ready-after_parse : (f : Flags) (p : Parsed) → Ready (after_parse parsers lib parse_flags f p)
  unfolding after_parse checked normalize_flags
  Ready-after_parse f (help usage) = tt
  Ready-after_parse f (refused e) = tt
  Ready-after_parse f (parsed values) =
      let g : Flags = flags_of f values in
      let c : Config = normalize_flags parsers lib parse_flags g in
      elim (Option-cases (validate lib c)) [
        | inl fine ↦
            rw (fine, checked)
              (record {
                is_valid = (validate-none lib c).0 fine;
                vehicle_ids_clean = parse_csv-IsPart g.vehicle_ids;
                signal_codes_clean = parse_csv-IsPart g.signal_codes;
              })
        | inr (e, bad) ↦ rw (bad, checked) tt
      ]

  Ready-after_defaults :
      (args : List Str) (r : Result Flags) → Ready (after_defaults parsers lib parse_flags args r)
  unfolding after_defaults
  Ready-after_defaults args (err e) = tt
  Ready-after_defaults args (ok f) = Ready-after_parse f (parse_flags (flag_set f) args)

  -- A configuration that Load returns is valid in every part, and the entries of its lists of
  -- vehicles and of signal codes are not empty and trimmed.
  pub load-IsReady :
      (args : List Str) (env : Map Str) (c : Config)
      → load parsers lib parse_flags args env ≡ loaded c
      → IsReady lib c
  unfolding load
  load-IsReady args env c e = subst Ready e (Ready-after_defaults args (flag_defaults parsers env))
