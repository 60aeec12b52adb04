-- ===== src/Config/Address.antt =====
-- Config.IsLoopback of internal/config/config.go, over package net.
use toyotaview.Common.{
  Bool, true, false, Option, none, some, Str, str, str_eq, Result, ok, err, if◌then◌else◌,
}

-- The host of net.SplitHostPort, and whether the address that net.ParseIP reads is a loopback one.
pub record Network : Type 0 where
  pub split_host : Str → Result Str
  pub parse_ip_loopback : Str → Option Bool

module _ (network : Network) where
  unfoldable pub is_loopback_host : Str → Bool
  is_loopback_host host =
      if str_eq host (str "localhost")
      then true
      else elim (network.parse_ip_loopback host) [ none ↦ false | some loopback ↦ loopback ]

  unfoldable pub is_loopback : Str → Bool
  unfolding is_loopback_host
  is_loopback addr = elim (network.split_host addr) [
    | err e ↦ false
    | ok host ↦ is_loopback_host host
  ]
