-- ===== src/Docroot/Tests.antt =====
-- An encoded climb that ends below the document root.
use hottpd.Base.{◌≡◌, refl, ◌∷◌, ◌++◌, [], Bytes, codes, All, arith}
use hottpd.Uri.{handle_uri}
use hottpd.Uri.Walk.{segments}
use hottpd.Files.{serve, without_slash, check_file_path, regular}
use hottpd.Files.Tests.{tree, conf, no_caches}
use hottpd.Docroot.{Inside, served-Inside}

abbrev raw : Bytes
raw = codes "%2e%2e/x/.././a/f?q=../.."

served :
    (check_file_path tree conf (codes "/srv/") (handle_uri (b'/' ∷ raw) []).0 (no_caches, tt)).0
    ≡ serve (codes "/srv/a/f") (record { mode = regular; size = 5; uid = 0 })
unfolding check_file_path handle_uri
served = refl

served-Inside_example :
    (below : Bytes) × (codes "/srv/a/f" ≡ (without_slash (codes "/srv/") ++ b'/' ∷ []) ++ below)
    × All Inside (segments [] below)
served-Inside_example =
    served-Inside tree conf (codes "/srv/") raw [] (no_caches, tt) (codes "/srv/a/f")
      (record { mode = regular; size = 5; uid = 0 }) (omega arith) served
