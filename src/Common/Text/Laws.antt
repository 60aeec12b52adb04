-- ===== src/Common/Text/Laws.antt =====
-- Laws of TrimSpace, Split and Join.
use Prim.Native.Nat.{ℕ, zero, suc, ◌-◌}
use mathlib.Core.Path.{◌≡◌, refl, sym, ap, ◌∙◌}
use mathlib.Core.Logic.{inl, inr}
use mathlib.Core.List.{List, [], ◌∷◌, ◌++◌, map, reverse, reverse-append, reverse-reverse}
use native.Mathlib.Omega.{arith}
use toyotaview.Common.Tests.{◌==◌, if◌then◌else◌, Bool-cases}
use toyotaview.Common.Bytes.{Str}
use toyotaview.Common.Text.{
  push_front, split, join, first_part, start_width, end_width, skip_space, trim_space,
}

-- What is left starts with no white space.
width-skip_space :
    (width : Str → ℕ) (k : ℕ) (s : Str) → width [] ≡ 0 → width (skip_space width k s) ≡ 0
unfolding skip_space
width-skip_space width k [] h = h
width-skip_space width (suc k) (a ∷ s) h = width-skip_space width k s h
width-skip_space width zero (a ∷ s) h =
    ground (arith, width-skip_space width (width (a ∷ s) - 1) s h)

skip_space_done : (width : Str → ℕ) (s : Str) → width s ≡ 0 → skip_space width 0 s ≡ s
unfolding skip_space
skip_space_done width [] h = refl
skip_space_done width (a ∷ s) h = ground arith

-- Only a front part is dropped.
skip_space-suffix :
    (width : Str → ℕ) (k : ℕ) (s : Str) → (p : Str) × (s ≡ p ++ skip_space width k s)
unfolding skip_space
skip_space-suffix width k [] = ([], refl)
skip_space-suffix width (suc k) (a ∷ s) =
    let (p, e) = skip_space-suffix width k s in (a ∷ p, ap (◌∷◌ a) e)
skip_space-suffix width zero (a ∷ s) =
    let (p, e) = skip_space-suffix width (width (a ∷ s) - 1) s in
    elim (Bool-cases (width (a ∷ s) == 0)) [
      | inl none_left ↦ ([], rw none_left)
      | inr some_left ↦ (a ∷ p, rw some_left (ap (◌∷◌ a) e))
    ]

-- A front part of a string that starts with no white space starts with none.
start_width-prefix : (p u : Str) → start_width (p ++ u) ≡ 0 → start_width p ≡ 0
unfolding start_width
start_width-prefix [] u h = refl
start_width-prefix (a ∷ []) u h = ground arith
start_width-prefix (a ∷ b ∷ []) u h = ground arith
start_width-prefix (a ∷ b ∷ c ∷ p) u h = h

start_width-nil : start_width [] ≡ 0
unfolding start_width
start_width-nil = refl

end_width-nil : end_width [] ≡ 0
unfolding end_width
end_width-nil = refl

-- Trimming the end keeps a front part.
trim_end-append : (s : Str) → (u : Str) × (trim_space s ++ u ≡ skip_space start_width 0 s)
unfolding trim_space
trim_end-append s =
    let t = skip_space start_width 0 s in
    let (p, e) = skip_space-suffix end_width 0 (reverse t) in
    (reverse p, sym (reverse-append p _) ∙ ap reverse (sym e) ∙ reverse-reverse t)

-- The result starts with no white space.
pub start_width-trim_space : (s : Str) → start_width (trim_space s) ≡ 0
start_width-trim_space s =
    let (u, e) = trim_end-append s in
    start_width-prefix (trim_space s) u (rw e (width-skip_space start_width 0 s start_width-nil))

-- Nor does it end with any.
pub end_width-trim_space : (s : Str) → end_width (reverse (trim_space s)) ≡ 0
unfolding trim_space
end_width-trim_space s =
    rw reverse-reverse
      (width-skip_space end_width 0 (reverse (skip_space start_width 0 s)) end_width-nil)

trim_space_done : (s : Str) → start_width s ≡ 0 → end_width (reverse s) ≡ 0 → trim_space s ≡ s
unfolding trim_space
trim_space_done s h k =
    rw (skip_space_done start_width s h, skip_space_done end_width (reverse s) k)
      (reverse-reverse s)

-- Trimming a trimmed text changes nothing.
pub trim_space_idem : (s : Str) → trim_space (trim_space s) ≡ trim_space s
trim_space_idem s =
    trim_space_done (trim_space s) (start_width-trim_space s) (end_width-trim_space s)

join-push_front :
    (sep c : ℕ) (p : Str) (ps : List Str) → join sep (push_front c (p ∷ ps)) ≡ c ∷ join sep (p ∷ ps)
unfolding join push_front
join-push_front sep c p [] = refl
join-push_front sep c p (q ∷ ps) = refl

split-cons : (sep : ℕ) (s : Str) → (p : Str) × (ps : List Str) × (split sep s ≡ p ∷ ps)
unfolding split push_front
split-cons sep [] = ([], [], refl)
split-cons sep (c ∷ s) = elim (Bool-cases (c == sep)) [
  | inl here ↦ ([], split sep s, rw here)
  | inr later ↦ let (p, ps, e) = split-cons sep s in (c ∷ p, ps, rw (later, e))
]

join-empty : (sep : ℕ) → join sep ([] ∷ []) ≡ []
unfolding join
join-empty sep = refl

join-empty_front :
    (sep : ℕ) (p : Str) (ps : List Str) → join sep ([] ∷ p ∷ ps) ≡ sep ∷ join sep (p ∷ ps)
unfolding join
join-empty_front sep p ps = refl

abbrev pub swap_byte : ℕ → ℕ → ℕ → ℕ
swap_byte old new c = if c == old then new else c

-- Splitting at one separator and joining with another replaces the separators.
pub join-split : (old new : ℕ) (s : Str) → join new (split old s) ≡ map (swap_byte old new) s
unfolding split
join-split old new [] = join-empty new
join-split old new (c ∷ s) =
    let (p, ps, e) = split-cons old s in
    let ih : join new (p ∷ ps) ≡ map (swap_byte old new) s = rw (← e) (join-split old new s) in
    elim (Bool-cases (c == old)) [
      | inl here ↦ rw (here, e, join-empty_front new p ps) (ap (◌∷◌ new) ih)
      | inr later ↦ rw (later, e, join-push_front new c p ps) (ap (◌∷◌ c) ih)
    ]

-- The first part of a split in two is the first part of the full split.
pub first_part-split : (sep : ℕ) (s : Str) → (ps : List Str) × (split sep s ≡ first_part sep s ∷ ps)
unfolding split first_part push_front
first_part-split sep [] = ([], refl)
first_part-split sep (c ∷ s) = elim (Bool-cases (c == sep)) [
  | inl here ↦ (split sep s, rw here)
  | inr later ↦ let (ps, e) = first_part-split sep s in (ps, rw (later, e))
]
