-- ===== src/Smartcar/Names/Laws.antt =====
-- What the display names keep of a signal's code.
use toyotaview.Common.{ℕ, true, List, [], ◌∷◌, ◌++◌, map, Str, ◌≡◌, refl, ap, ◌∙◌, arith, All}
use toyotaview.Common.Text.{push_front, split, join, to_upper_one, upper_byte, lower_byte, is_ascii}
use toyotaview.Common.Text.Laws.{join-split, swap_byte}
use toyotaview.Smartcar.Names.{title_word, signal_name_from_code}

lower-upper : (c : ℕ) → lower_byte (upper_byte c) ≡ lower_byte c
unfolding lower_byte upper_byte
lower-upper c = ground arith

-- The code is ASCII text.
abbrev pub IsAscii : Str → Type 0
IsAscii s = is_ascii s ≡ true

lower-title_word : (s : Str) → IsAscii s → map lower_byte (title_word s) ≡ map lower_byte s
unfolding title_word to_upper_one is_ascii
lower-title_word [] h = refl
lower-title_word (c ∷ s) h = ground (arith, lower-upper c)

map-append_str : (f : ℕ → ℕ) (s t : Str) → map f (s ++ t) ≡ map f s ++ map f t
map-append_str f [] t = refl
map-append_str f (c ∷ s) t = ap (◌∷◌ (f c)) (map-append_str f s t)

-- Titles change the case only, also under a join.
lower-join-titles :
    (sep : ℕ) (ps : List Str)
    → All IsAscii ps
    → map lower_byte (join sep (map title_word ps)) ≡ map lower_byte (join sep ps)
unfolding join
lower-join-titles sep [] h = refl
lower-join-titles sep (p ∷ []) h = lower-title_word p h.0
lower-join-titles sep (p ∷ q ∷ ps) h =
    rw
      (
        map-append_str lower_byte (title_word p) _,
        map-append_str lower_byte p _,
        lower-title_word p h.0,
      )
      (ap (λ t. map lower_byte p ++ lower_byte sep ∷ t) (lower-join-titles sep (q ∷ ps) h.1))

IsAscii-push_front :
    (c : ℕ) (ps : List Str)
    → is_ascii (c ∷ []) ≡ true
    → All IsAscii ps
    → All IsAscii (push_front c ps)
unfolding push_front is_ascii
IsAscii-push_front c [] h k = (h, tt)
IsAscii-push_front c (p ∷ ps) h k = ground arith

split-IsAscii : (sep : ℕ) (s : Str) → IsAscii s → All IsAscii (split sep s)
unfolding split is_ascii
split-IsAscii sep [] h = (refl, tt)
split-IsAscii sep (c ∷ s) h =
    ground (arith, split-IsAscii sep s, IsAscii-push_front c (split sep s))

-- Up to the case of letters the display name of an ASCII code is the code with spaces for dashes.
pub lower-signal_name_from_code :
    (code : Str)
    → IsAscii code
    → map lower_byte (signal_name_from_code code) ≡ map lower_byte (map (swap_byte b'-' b' ') code)
unfolding signal_name_from_code
lower-signal_name_from_code code h =
    lower-join-titles b' ' (split b'-' code) (split-IsAscii b'-' code h)
    ∙ ap (map lower_byte) (join-split b'-' b' ' code)
