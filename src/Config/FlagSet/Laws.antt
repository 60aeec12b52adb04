-- ===== src/Config/FlagSet/Laws.antt =====
-- Each flag writes the field that its default comes from.
use toyotaview.Common.{
  Bool, true, not, ◌&&◌, insert, arith, List, [], ◌∷◌, Str, str, Map, lookup, mem, str_eq,
  IsDistinct, ◌≡◌, refl,
}
use toyotaview.Config.Types.{Config, SmartcarConfig}
use toyotaview.Config.Defaults.{Flags}
use toyotaview.Config.FlagSet.{FlagValue, bool, Definition, flag_set}
use toyotaview.Config.FlagSet.Fields.{flags_of}

-- The flags by their names, each at its default.
abbrev pub defaults_of : List Definition → Map FlagValue
defaults_of [] = []
defaults_of (d ∷ ds) = (d.name, d.default) ∷ defaults_of ds

abbrev pub names_of : List Definition → List Str
names_of [] = []
names_of (d ∷ ds) = d.name ∷ names_of ds

-- The flags as they stand after a parse.
abbrev pub values_of : Flags → Map FlagValue
values_of g = insert (str "print-config") (bool g.config.print_config) (defaults_of (flag_set g))

all_distinct : List Str → Bool
all_distinct [] = true
all_distinct (x ∷ xs) = not (mem x xs) && all_distinct xs

all_distinct-IsDistinct : (xs : List Str) → all_distinct xs ≡ true → IsDistinct xs
unfolding all_distinct
all_distinct-IsDistinct [] h = tt
all_distinct-IsDistinct (x ∷ xs) h = ground (arith, all_distinct-IsDistinct xs)

-- No two flags have one name.
pub flag_set-IsDistinct : (f : Flags) → IsDistinct (names_of (flag_set f))
unfolding flag_set mem str_eq all_distinct
flag_set-IsDistinct f = all_distinct-IsDistinct (names_of (flag_set f)) refl

-- Flags with the lists of others, which have no flag of their own.
unfoldable pub with_lists : Flags → Flags → Flags
with_lists f g =
    let c : Config = g.config in
    let s : SmartcarConfig = c.smartcar in
    record g {
      config = record c {
        smartcar = record s {
          vehicle_ids = f.config.smartcar.vehicle_ids;
          signal_codes = f.config.smartcar.signal_codes;
        };
      };
    }

-- Flags that are read from the values of others are those others, but for the lists.
pub flags_of-values : (f g : Flags) → flags_of f (values_of g) ≡ with_lists f g
unfolding flags_of flag_set lookup insert str_eq with_lists
flags_of-values f g = refl
