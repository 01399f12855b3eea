-- ===== src/ClientIp/Tests.antt =====
-- A client that forges an entry, behind one proxy.
use bikenest.Base.{◌≡◌, true, some, Option, ◌++◌, ◌∷◌, arith}
use bikenest.Base.Text.{Text, codes, trim, trim_start, trim_end, is_whitespace}
use bikenest.ClientIp.{entries, split_commas, resolve_client_ip}
use bikenest.ClientIp.Chain.{resolve_client_ip-append}

abbrev peer : Option Text
peer = some (codes "10.0.0.1")

resolve_client_ip-append_example :
    resolve_client_ip (λ _. true) peer (some (codes "1.2.3.4" ++ 44 ∷ codes " 5.6.7.8")) 1
    ≡ resolve_client_ip (λ _. true) peer (some (codes " 5.6.7.8")) 1
unfolding entries split_commas trim trim_start trim_end is_whitespace
resolve_client_ip-append_example =
    resolve_client_ip-append (λ _. true) peer 1 (codes "1.2.3.4") (codes " 5.6.7.8") (omega arith)
