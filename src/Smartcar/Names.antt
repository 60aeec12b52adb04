-- ===== src/Smartcar/Names.antt =====
-- The display names of signals: signalNameFromCode, signalGroupFromCode and titleWord of
-- internal/smartcar/models.go.
pub mod Laws
use toyotaview.Common.{[], ◌∷◌, ◌++◌, map, Str, str, is_empty, if◌then◌else◌}
use toyotaview.Common.Text.{split, first_part, join, to_upper_one}

unfoldable pub title_word : Str → Str
title_word [] = []
title_word (c ∷ s) = to_upper_one c ++ s

unfoldable pub signal_name_from_code : Str → Str
signal_name_from_code code = join b' ' (map title_word (split b'-' code))

unfoldable pub signal_group_from_code : Str → Str
signal_group_from_code code =
    if is_empty (first_part b'-' code) then str "Signal" else title_word (first_part b'-' code)
