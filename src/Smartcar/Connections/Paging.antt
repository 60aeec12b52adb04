-- ===== src/Smartcar/Connections/Paging.antt =====
-- The requests of the pages, and a server whose links never end.
use toyotaview.Common.{
  some, ℕ, zero, suc, ◌*◌, ◌≤◌, pos_part, false, List, [], Str, is_empty, Result, ok, err,
  Result-cases, ◌≡◌, refl, ap, ◌∙◌, subst, inl, inr, arith,
}
use native.Mathlib.Nat.{mul-le-mul_right}
use toyotaview.Smartcar.Models.{Connection}
use toyotaview.Smartcar.Http.{Net}
use toyotaview.Smartcar.Json.{Json}
use toyotaview.Smartcar.Client.{ClientConfig, ClientState, Headers}
use toyotaview.Smartcar.Client.Counts.{sends}
use toyotaview.Smartcar.Token.{do_authorized}
use toyotaview.Smartcar.Token.Laws.{SendsAtMost, sends-do_authorized}
use toyotaview.Smartcar.Vehicle.{resolve_vehicle_url, get_request}
use toyotaview.Smartcar.Connections.{read_page, get_page, list_connections}
use toyotaview.Smartcar.Connections.Laws.{
  Outcome, Listed, finished, failed, linked, list_connections_iff, prepend,
}

module _ {W : Type 0} (net : Net W) (json : Json) (c : ClientConfig) where
  read_page-state : (p : Result (Headers × Str) × ClientState W) → (read_page net json c p).1 ≡ p.1
  unfolding read_page
  read_page-state (err e, st) = refl
  read_page-state (ok (headers, body), st) = elim (Result-cases (json.connections_response body)) [
    | inl (response, read) ↦ rw (read, read_page) refl
    | inr (e, bad) ↦ rw (bad, read_page) refl
  ]

  abbrev pub call_bound : ℕ
  call_bound = 2 * suc (pos_part c.max_retries)

  sends-get_page :
      (path : Str) (st : ClientState W)
      → SendsAtMost net json.token_response c call_bound st (get_page net json c path st).1
  unfolding get_page
  sends-get_page path st =
      let build = get_request net c (resolve_vehicle_url net c path) [] in
      rw (read_page-state (do_authorized net json.token_response c "list_connections" build st))
        (sends-do_authorized net json.token_response c "list_connections" build st)

  prepend-state :
      (page : List Connection) (r : Outcome net json c) → (prepend net json c page r).1 ≡ r.1
  prepend-state page (ok connections, st) = refl
  prepend-state page (err e, st) = refl

  got-state :
      (n : ℕ) (path : Str) (st : ClientState W) (p : Result (List Connection × Str) × ClientState W)
      → get_page net json c path st ≡ p
      → SendsAtMost net json.token_response c call_bound st p.1
  got-state n path st p got =
      subst (λ q. SendsAtMost net json.token_response c call_bound st q.1) got
        (sends-get_page path st)

  sends-Listed :
      {n : ℕ} {path : Str} {st : ClientState W} {r : Outcome net json c}
      → Listed net json c n path st r
      → SendsAtMost net json.token_response c (n * call_bound) st r.1
  sends-Listed (finished blank) = (omega arith, omega arith)
  sends-Listed {path = path} {st = st} (failed e st' shown got) =
      let one = got-state 1 path st (err e, st') got in (one.0, omega (arith, one.1))
  sends-Listed {n = suc n} {path = path} {st = st} (linked page next st' rest shown got more same) =
      let one = got-state 1 path st (ok (page, next), st') got in
      let others = sends-Listed more in
      let state =
        ap (λ q. sends q.1.events) same ∙ ap (λ q. sends q.events) (prepend-state page rest) in
      (omega (arith, one.0, others.0, state), omega (arith, one.1, others.1, state))

  -- Where the page at a path always succeeds and links to itself again, ListConnections reaches no
  -- outcome from that path, whatever the number of pages: nothing in the loop bounds them.
  pub not-Listed_endless :
      (path : Str)
      → is_empty path ≡ false
      → ((st : ClientState W)
          → (page : List Connection) × (st' : ClientState W) × (get_page net json c path st
              ≡ (ok (page, path), st')))
      → (n : ℕ) (st : ClientState W) (r : Outcome net json c) → Listed net json c n path st r
      → ⊥
  not-Listed_endless path shown self zero st r (finished blank) = cc (shown, blank)
  not-Listed_endless path shown self (suc n) st r (failed e st' _ got) =
      let (page, after, again) = self st in cc (got, again)
  not-Listed_endless path shown self (suc n) st r (linked page next st' rest _ got more same) =
      let (page', after, again) = self st in
      let back : next ≡ path = cc (got, again) in
      not-Listed_endless path shown self n st' rest
        (subst (λ q. Listed net json c n q st' rest) back more)

  -- ListConnections asks for at most this many pages, and each of them costs at most the requests of
  -- one call: twice one request and its configured number of retries.
  pub sends-list_connections :
      (pages : ℕ) (user_id : Str) (st : ClientState W) (r : Outcome net json c)
      → list_connections net json c pages user_id st ≡ some r
      → SendsAtMost net json.token_response c (pages * call_bound) st r.1
  sends-list_connections pages user_id st r e =
      let (n, few, listed) = (list_connections_iff net json c pages user_id st r).0 e in
      let sent = sends-Listed listed in
      let more : n * call_bound ≤ pages * call_bound = mul-le-mul_right call_bound few in
      (sent.0, omega (arith, sent.1, more))
