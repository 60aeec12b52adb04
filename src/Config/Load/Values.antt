-- ===== src/Config/Load/Values.antt =====
-- The configuration that Load makes of the values of the flags.
use toyotaview.Common.{List, Str, Map, IsDistinct, ok, ◌≡◌, refl, ap}
use toyotaview.Config.Defaults.{Parsers, Flags, flag_defaults}
use toyotaview.Config.FlagSet.{Definition, flag_set}
use toyotaview.Config.FlagSet.Fields.{flags_of}
use toyotaview.Config.FlagSet.Laws.{
  names_of, values_of, flag_set-IsDistinct, with_lists, flags_of-values,
}
use toyotaview.Config.Validate.{Library}
use toyotaview.Config.Load.{
  Parsed, parsed, normalize_flags, checked, after_parse, after_defaults, load,
}

module _ (parsers : Parsers) (lib : Library)
    (parse_flags : List Definition → List Str → Parsed) where
  normalize_flags-values :
      (f g : Flags)
      → normalize_flags parsers lib parse_flags (flags_of f (values_of g))
        ≡ normalize_flags parsers lib parse_flags g
  unfolding normalize_flags with_lists
  normalize_flags-values f g = ap (normalize_flags parsers lib parse_flags) (flags_of-values f g)

  -- No two flags that Load registers have one name, so that registering them does not panic. Where
  -- package flag leaves each flag at the value of a set of flags, Load makes its configuration of
  -- that set, field by field, whatever the defaults from the environment were.
  pub load-values :
      (args : List Str) (env : Map Str) (f g : Flags)
      → flag_defaults parsers env ≡ ok f
      → parse_flags (flag_set f) args ≡ parsed (values_of g)
      → IsDistinct (names_of (flag_set f))
        × (load parsers lib parse_flags args env
            ≡ checked parsers lib parse_flags (normalize_flags parsers lib parse_flags g))
  unfolding load after_defaults after_parse
  load-values args env f g known left =
      (flag_set-IsDistinct f, rw (known, left, normalize_flags-values f g) refl)
