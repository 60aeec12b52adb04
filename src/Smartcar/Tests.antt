-- ===== src/Smartcar/Tests.antt =====
-- The client against a small network, and its theorems at that network.
use toyotaview.Common.{◌↔◌, ◌^◌, ◌*◌, ◌+◌, ◌≤◌, arith, ℕ, pos, some, [], str, ok, ◌≡◌}
use toyotaview.Smartcar.Retry.Laws.{backoff_delay_bounds}
use toyotaview.Smartcar.Client.{ClientState, do_request, do_loop}
use toyotaview.Smartcar.Client.Laws.{do_request-IsLooped, IsLooped}
use toyotaview.Smartcar.Retry.{backoff_delay}
use toyotaview.Smartcar.Demo.{a_request, demo_net, demo_client, demo_start, demo_json}
use toyotaview.Smartcar.Connections.{get_page, first_page, list_connections}
use toyotaview.Smartcar.Connections.Laws.{Lists, list_connections_iff}

do_request-IsLooped_example :
    (do_loop demo_net demo_client "get" 3 (ok a_request) 0 demo_start
      ≡ some (do_request demo_net demo_client "get" (ok a_request) demo_start))
    × IsLooped demo_net demo_client "get" 3 demo_start
        (do_request demo_net demo_client "get" (ok a_request) demo_start).1
do_request-IsLooped_example = do_request-IsLooped demo_net demo_client "get" a_request demo_start

backoff_delay_bounds_example :
    (n : ℕ) × (backoff_delay 3 250_000_000 ≡ pos n)
    × (2 ^ 3 * 200_000_000 ≤ n)
    × (n ≤ 2 ^ 3 * 200_000_000 + 100_000_000)
backoff_delay_bounds_example = backoff_delay_bounds 3 250_000_000 (omega arith)

abbrev after_page_one : ClientState ℕ
after_page_one =
    (get_page demo_net demo_json demo_client (first_page demo_net demo_json demo_client (str "u"))
      demo_start).1

list_connections_iff_example :
    (list_connections demo_net demo_json demo_client 1 (str "u") demo_start
      ≡ some (ok [], after_page_one))
    ↔ Lists demo_net demo_json demo_client 1 (str "u") demo_start (ok [], after_page_one)
list_connections_iff_example =
    list_connections_iff demo_net demo_json demo_client 1 (str "u") demo_start
      (ok [], after_page_one)
