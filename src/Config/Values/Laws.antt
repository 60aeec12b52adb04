-- ===== src/Config/Values/Laws.antt =====
-- parseCSV against joining with commas, and what a redacted value shows.
use toyotaview.Common.{
  ℕ, ◌-◌, ◌==◌, ==_iff, Bool, true, false, not, ◌&&◌, List, [], ◌∷◌, ◌++◌, Str, length, drop,
  is_empty, Bool-cases, All, ◌≡◌, refl, ap, ◌∙◌, inl, inr, arith,
}
use toyotaview.Common.Text.{split, join, push_front, trim_space}
use toyotaview.Common.Text.Laws.{trim_space_idem}
use toyotaview.Config.Values.{keep_parts, parse_csv, redact_value}

-- A text without a byte.
unfoldable pub lacks : ℕ → Str → Bool
lacks sep [] = true
lacks sep (c ∷ s) = not (c == sep) && lacks sep s

-- An entry of a list of values: not empty, without commas, and without white space at its ends.
abbrev pub IsPart : Str → Type 0
IsPart p = (is_empty p ≡ false) × (trim_space p ≡ p)

split-append :
    (sep : ℕ) (p s : Str) → lacks sep p ≡ true → split sep (p ++ sep ∷ s) ≡ p ∷ split sep s
unfolding lacks split push_front
split-append sep [] s h = rw ((==_iff sep sep).1 refl) refl
split-append sep (c ∷ p) s h = ground (arith, split-append sep p s, push_front)

split-lacks : (sep : ℕ) (p : Str) → lacks sep p ≡ true → split sep p ≡ p ∷ []
unfolding lacks split push_front
split-lacks sep [] h = refl
split-lacks sep (c ∷ p) h = ground (arith, split-lacks sep p, push_front)

-- Splitting undoes joining, for parts without the separator.
pub split-join :
    (sep : ℕ) (p : Str) (ps : List Str)
    → All (λ q. lacks sep q ≡ true) (p ∷ ps)
    → split sep (join sep (p ∷ ps)) ≡ p ∷ ps
unfolding join
split-join sep p [] h = split-lacks sep p h.0
split-join sep p (q ∷ ps) h =
    split-append sep p (join sep (q ∷ ps)) h.0 ∙ ap (◌∷◌ p) (split-join sep q ps h.1)

keep_parts_id : (ps : List Str) → All IsPart ps → keep_parts ps ≡ ps
unfolding keep_parts
keep_parts_id [] h = refl
keep_parts_id (p ∷ ps) h = rw (h.0.1, h.0.0, keep_parts_id ps h.1)

keep_parts-IsPart : (ps : List Str) → All IsPart (keep_parts ps)
unfolding keep_parts
keep_parts-IsPart [] = tt
keep_parts-IsPart (p ∷ ps) = elim (Bool-cases (is_empty (trim_space p))) [
  | inl blank ↦ rw blank (keep_parts-IsPart ps)
  | inr shown ↦ rw shown ((shown, trim_space_idem p), keep_parts-IsPart ps)
]

-- The entries of a parsed list are not empty and have no white space at their ends.
pub parse_csv-IsPart : (value : Str) → All IsPart (parse_csv value)
unfolding parse_csv
parse_csv-IsPart value = elim (Bool-cases (is_empty value)) [
  | inl blank ↦ rw blank tt
  | inr shown ↦ rw shown (keep_parts-IsPart (split b',' value))
]

is_empty-join :
    (sep : ℕ) (p : Str) (ps : List Str) → is_empty p ≡ false → is_empty (join sep (p ∷ ps)) ≡ false
unfolding join
is_empty-join sep [] ps h = cc h
is_empty-join sep (c ∷ p) [] h = refl
is_empty-join sep (c ∷ p) (q ∷ ps) h = refl

-- Reading a list that was written with commas gives the list back, for entries that are not empty,
-- hold no comma, and have no white space at their ends.
pub parse_csv-join :
    (ps : List Str)
    → All IsPart ps
    → All (λ q. lacks b',' q ≡ true) ps
    → parse_csv (join b',' ps) ≡ ps
unfolding parse_csv join
parse_csv-join [] h k = refl
parse_csv-join (p ∷ ps) h k =
    rw (is_empty-join b',' p ps h.0.0, split-join b',' p ps k) (keep_parts_id (p ∷ ps) h)

-- What a redacted value may depend on: whether it is empty, its length, and its last bytes.
pub record IsAlike (keep : ℕ) (v w : Str) : Type 0 where
  pub same_empty : is_empty v ≡ is_empty w
  pub same_length : length v ≡ length w
  pub same_suffix : drop (length v - keep) v ≡ drop (length w - keep) w

-- Values of the same length with the same last bytes are redacted to the same text.
pub redact_value-alike :
    (keep : ℕ) (v w : Str) → IsAlike keep v w → redact_value v keep ≡ redact_value w keep
unfolding redact_value
redact_value-alike keep v w a = rw (a.same_suffix, a.same_length, a.same_empty) refl

-- Of a value of which nothing may be shown the redaction tells only whether it is empty.
pub redact_value-hidden :
    (v w : Str) → is_empty v ≡ is_empty w → redact_value v 0 ≡ redact_value w 0
unfolding redact_value
redact_value-hidden v w h = rw h refl
