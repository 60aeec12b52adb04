-- ===== src/Smartcar/Connections/Laws.antt =====
-- When ListConnections returns, and what: the pages that the server links, in order.
use toyotaview.Common.{
  ℕ, zero, suc, ◌≤◌, true, false, Option, none, some, List, [], ◌++◌, Str, is_empty, GoError,
  Result, ok, err, Bool-cases, ◌≡◌, ◌↔◌, refl, sym, ap, ◌∙◌, subst, inl, inr, arith,
}
use mathlib.Core.List.{append_assoc, append-nil}
use toyotaview.Smartcar.Models.{Connection}
use toyotaview.Smartcar.Http.{Net}
use toyotaview.Smartcar.Json.{Json}
use toyotaview.Smartcar.Client.{ClientConfig, ClientState}
use toyotaview.Smartcar.Connections.{get_page, after_page, list_pages, first_page, list_connections}

module _ {W : Type 0} (net : Net W) (json : Json) (c : ClientConfig) where
  abbrev pub Outcome : Type 0
  Outcome = Result (List Connection) × ClientState W

  abbrev pub prepend : List Connection → Outcome → Outcome
  prepend page (ok connections, st) = (ok (page ++ connections), st)
  prepend page (err e, st) = (err e, st)

  -- The pages from a path on: `n` of them are asked for, and this is the outcome.
  pub data Listed : ℕ → Str → ClientState W → Outcome → Type 0 where
    finished :
        {path : Str} {st : ClientState W} → is_empty path ≡ true → Listed zero path st (ok [], st)
    failed :
        {path : Str} {st : ClientState W} (e : GoError) (st' : ClientState W)
        → is_empty path ≡ false
        → get_page net json c path st ≡ (err e, st')
        → Listed (suc zero) path st (err e, st')
    linked :
        {n : ℕ} {path : Str} {st : ClientState W} {r : Outcome} (page : List Connection)
        (next : Str) (st' : ClientState W) (rest : Outcome)
        → is_empty path ≡ false
        → get_page net json c path st ≡ (ok (page, next), st')
        → Listed n next st' rest
        → r ≡ prepend page rest
        → Listed (suc n) path st r

  prepend-nil : (r : Outcome) → prepend [] r ≡ r
  prepend-nil (ok connections, st) = refl
  prepend-nil (err e, st) = refl

  prepend-append :
      (acc page : List Connection) (r : Outcome)
      → prepend (acc ++ page) r ≡ prepend acc (prepend page r)
  prepend-append acc page (ok connections, st) = rw (append_assoc acc page connections)
  prepend-append acc page (err e, st) = refl

  list_pages_blank :
      (fuel : ℕ) (acc : List Connection) (path : Str) (st : ClientState W)
      → is_empty path ≡ true
      → list_pages net json c fuel acc path st ≡ some (ok acc, st)
  unfolding list_pages
  list_pages_blank zero acc path st h = rw h
  list_pages_blank (suc fuel) acc path st h = rw h

  list_pages_shown :
      (fuel : ℕ) (acc : List Connection) (path : Str) (st : ClientState W)
      → is_empty path ≡ false
      → list_pages net json c (suc fuel) acc path st
        ≡ after_page net json c (list_pages net json c fuel) acc (get_page net json c path st)
  unfolding list_pages
  list_pages_shown fuel acc path st h = rw h

  -- The loop reaches the outcome that the links determine, with fuel for their pages.
  list_pages_complete :
      (fuel n : ℕ) (acc : List Connection) (path : Str) (st : ClientState W) (r : Outcome)
      → Listed n path st r
      → n ≤ fuel
      → list_pages net json c fuel acc path st ≡ some (prepend acc r)
  unfolding after_page
  list_pages_complete fuel zero acc path st r (finished blank) h =
      rw (list_pages_blank fuel acc path st blank, append-nil acc) refl
  list_pages_complete zero (suc n) acc path st r listed h = elim h [ ]
  list_pages_complete (suc fuel) (suc n) acc path st r (failed e st' shown got) h =
      rw (list_pages_shown fuel acc path st shown, got) refl
  list_pages_complete (suc fuel) (suc n) acc path st r
        (linked page next st' rest shown got more same) h =
      rw (list_pages_shown fuel acc path st shown, got)
        (list_pages_complete fuel n (acc ++ page) next st' rest more (omega (arith, h))
          ∙ ap some (prepend-append acc page rest ∙ ap (prepend acc) (sym same)))

  -- What is left of the loop's outcome without the connections of earlier pages.
  abbrev Reached : ℕ → List Connection → Str → ClientState W → Option Outcome → Type 0
  Reached fuel acc path st none = Unit {0}
  Reached fuel acc path st (some r) =
      (n : ℕ) × (rest : Outcome) × (n ≤ fuel) × Listed n path st rest × (r ≡ prepend acc rest)

  Reached-linked :
      (fuel : ℕ) (acc page : List Connection) (path next : Str) (st st' : ClientState W)
      (o : Option Outcome)
      → is_empty path ≡ false
      → get_page net json c path st ≡ (ok (page, next), st')
      → Reached fuel (acc ++ page) next st' o
      → Reached (suc fuel) acc path st o
  Reached-linked fuel acc page path next st st' none shown got reached = tt
  Reached-linked fuel acc page path next st st' (some r) shown got (n, rest, few, more, same) = (
    suc n,
    prepend page rest,
    omega (arith, few),
    linked page next st' rest shown got more refl,
    same ∙ prepend-append acc page rest,
  )

  Reached-blank :
      (fuel : ℕ) (acc : List Connection) (path : Str) (st : ClientState W)
      → is_empty path ≡ true
      → Reached fuel acc path st (list_pages net json c fuel acc path st)
  Reached-blank fuel acc path st blank =
      rw (list_pages_blank fuel acc path st blank)
        (0, (ok [], st), omega arith, finished blank, rw (append-nil acc) refl)

  list_pages_out :
      (acc : List Connection) (path : Str) (st : ClientState W)
      → is_empty path ≡ false
      → list_pages net json c zero acc path st ≡ none
  unfolding list_pages
  list_pages_out acc path st h = rw h

  Reached-after_page :
      (fuel : ℕ) (acc : List Connection) (path : Str) (st : ClientState W)
      (p : Result (List Connection × Str) × ClientState W)
      → is_empty path ≡ false
      → get_page net json c path st ≡ p
      → ((page : List Connection) (next : Str) (st' : ClientState W)
          → Reached fuel (acc ++ page) next st' (list_pages net json c fuel (acc ++ page) next st'))
      → Reached (suc fuel) acc path st (after_page net json c (list_pages net json c fuel) acc p)
  unfolding after_page
  Reached-after_page fuel acc path st (err e, st') shown got ih =
      (1, (err e, st'), omega arith, failed e st' shown got, refl)
  Reached-after_page fuel acc path st (ok (page, next), st') shown got ih =
      Reached-linked fuel acc page path next st st'
        (list_pages net json c fuel (acc ++ page) next st') shown got (ih page next st')

  Reached-list_pages :
      (fuel : ℕ) (acc : List Connection) (path : Str) (st : ClientState W)
      → Reached fuel acc path st (list_pages net json c fuel acc path st)
  Reached-list_pages zero acc path st = elim (Bool-cases (is_empty path)) [
    | inl blank ↦ Reached-blank zero acc path st blank
    | inr shown ↦ rw (list_pages_out acc path st shown) tt
  ]
  Reached-list_pages (suc fuel) acc path st = elim (Bool-cases (is_empty path)) [
    | inl blank ↦ Reached-blank (suc fuel) acc path st blank
    | inr shown ↦ rw (list_pages_shown fuel acc path st shown) (
        Reached-after_page fuel acc path st (get_page net json c path st) shown refl
          (λ page next st'. Reached-list_pages fuel (acc ++ page) next st'))
  ]

  -- The pages that ListConnections asks for, and its outcome.
  abbrev pub Lists : ℕ → Str → ClientState W → Outcome → Type 0
  Lists pages user_id st r = (n : ℕ) × (n ≤ pages) × Listed n (first_page net json c user_id) st r

  -- ListConnections returns an outcome within a number of pages exactly when the links of the server
  -- lead to that outcome within that number: to a page without a next link, whose connections then
  -- follow those of the pages before it, in order, or to a page that fails, with its error.
  pub list_connections_iff :
      (pages : ℕ) (user_id : Str) (st : ClientState W) (r : Outcome)
      → (list_connections net json c pages user_id st ≡ some r) ↔ Lists pages user_id st r
  unfolding list_connections
  list_connections_iff pages user_id st r =
      let path = first_page net json c user_id in
      (
        λ e.
            let (n, rest, few, listed, same) =
              subst (Reached pages [] path st) e (Reached-list_pages pages [] path st) in
            (n, few, subst (Listed n path st) (sym (same ∙ prepend-nil rest)) listed),
        λ (n, few, listed).
            list_pages_complete pages n [] path st r listed few ∙ ap some (prepend-nil r),
      )
