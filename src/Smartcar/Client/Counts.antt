-- ===== src/Smartcar/Client/Counts.antt =====
-- Counting the requests that the client sends and records, in its list of events.
use toyotaview.Common.{ℕ, suc, ◌+◌, List, [], ◌∷◌, ◌++◌, ◌≡◌, arith}
use toyotaview.Smartcar.Client.{
  ClientState, ClientEvent, sent, request_recorded, token_recorded, retry_warned, log,
}

-- The number of requests sent.
unfoldable pub sends : List ClientEvent → ℕ
sends [] = 0
sends (sent req ∷ es) = suc (sends es)
sends (request_recorded operation label e ∷ es) = sends es
sends (token_recorded result ∷ es) = sends es
sends (retry_warned operation attempt ∷ es) = sends es

-- The number of requests recorded in the metrics.
unfoldable pub records : List ClientEvent → ℕ
records [] = 0
records (sent req ∷ es) = records es
records (request_recorded operation label e ∷ es) = suc (records es)
records (token_recorded result ∷ es) = records es
records (retry_warned operation attempt ∷ es) = records es

sends-append : (es fs : List ClientEvent) → sends (es ++ fs) ≡ sends es + sends fs
unfolding sends
sends-append [] fs = omega arith
sends-append (sent req ∷ es) fs = omega (arith, sends-append es fs)
sends-append (request_recorded operation label e ∷ es) fs = sends-append es fs
sends-append (token_recorded result ∷ es) fs = sends-append es fs
sends-append (retry_warned operation attempt ∷ es) fs = sends-append es fs

records-append : (es fs : List ClientEvent) → records (es ++ fs) ≡ records es + records fs
unfolding records
records-append [] fs = omega arith
records-append (sent req ∷ es) fs = records-append es fs
records-append (request_recorded operation label e ∷ es) fs = omega (arith, records-append es fs)
records-append (token_recorded result ∷ es) fs = records-append es fs
records-append (retry_warned operation attempt ∷ es) fs = records-append es fs

module _ {W : Type 0} where
  pub sends-log :
      (e : ClientEvent) (st : ClientState W)
      → sends (log e st).events ≡ sends st.events + sends (e ∷ [])
  unfolding log
  sends-log e st = sends-append st.events (e ∷ [])

  pub records-log :
      (e : ClientEvent) (st : ClientState W)
      → records (log e st).events ≡ records st.events + records (e ∷ [])
  unfolding log
  records-log e st = records-append st.events (e ∷ [])
