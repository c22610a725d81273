-- ===== src/Proxy/Server/Director.antt =====
-- What the director leaves in an intercepted request.
use runclaude.Prelude.{◌≡◌, refl, [], none, some, if◌then◌else◌}
use runclaude.Dict.{lookup, lookup-insert}
use runclaude.Text.{Bytes, codes, bytes_eq}
use runclaude.Proxy.Header.{canonical, del_header}
use runclaude.Proxy.Header.Laws.{lookup-del_header}
use runclaude.Proxy.Server.{Outgoing, direct}

-- The injection sees the request of the original director for the intercepted host, without
-- Proxy-Connection. Behind it the request is changed in X-Forwarded-For alone, which is present with
-- no value.
pub direct_lem :
    (original : Outgoing → Outgoing) (inject : Bytes → Outgoing → Outgoing) (host : Bytes)
    (req : Outgoing)
    → (seen : Outgoing) × (seen.host ≡ host)
      × ((key : Bytes)
          → lookup key seen.header ≡ (
              if bytes_eq (canonical (codes "Proxy-Connection")) key
              then none
              else lookup key (original req).header))
      × ((direct original inject host req).host ≡ (inject host seen).host)
      × ((key : Bytes)
          → lookup key (direct original inject host req).header ≡ (
              if bytes_eq (codes "X-Forwarded-For") key
              then some []
              else lookup key (inject host seen).header))
unfolding direct
direct_lem original inject host req =
    let seen = record (original req) {
      host = host;
      header = del_header (codes "Proxy-Connection") (original req).header;
    } in
    (
      seen,
      refl,
      (λ key. lookup-del_header (codes "Proxy-Connection") key (original req).header),
      refl,
      (λ key. lookup-insert (codes "X-Forwarded-For") key [] (inject host seen).header),
    )
