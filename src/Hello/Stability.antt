-- ===== src/Hello/Stability.antt =====
-- More data behind a ClientHello that was read does not change the result of `parseClientHello`.
use shuvtunnel.Common.{◌≡◌, ◌≢◌, refl, ap, ◌++◌, Text}
use shuvtunnel.Frame.{Bytes}
use shuvtunnel.Hello.Records.{Scan, partial, malformed, hello, stuck, scan_records}
use shuvtunnel.Hello.Records.Progress.{Conclusive, scan_records-append, scan_records-ne-stuck}
use shuvtunnel.Hello.{incomplete, parse_scan, parse_client_hello}

module _ (decode : Bytes → Text) where
  Conclusive-parse : (s : Scan) → s ≢ stuck → parse_scan decode s ≢ incomplete → Conclusive s
  unfolding parse_scan
  Conclusive-parse partial s p = p refl
  Conclusive-parse stuck s p = s refl
  Conclusive-parse (malformed r) s p = tt
  Conclusive-parse (hello bytes) s p = tt

  -- If `parseClientHello` does not answer incomplete for some bytes, then it gives the same
  -- answer for those bytes with any further bytes behind them.
  pub parse_client_hello-append :
      (bytes more : Bytes)
      → parse_client_hello decode bytes ≢ incomplete
      → parse_client_hello decode (bytes ++ more) ≡ parse_client_hello decode bytes
  unfolding parse_client_hello
  parse_client_hello-append bytes more h = ap (parse_scan decode) (
      scan_records-append bytes more
        (Conclusive-parse (scan_records bytes) (scan_records-ne-stuck bytes) h))
