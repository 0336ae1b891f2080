-- ===== src/Uri/Tests.antt =====
-- Runs of `HandleURI`.
use hottpd.Base.{◌≡◌, refl, codes, [], ◌∷◌, Bytes, arith}
use hottpd.Uri.Walk.{query_of, IsClean}
use hottpd.Uri.Clean.{target, handle_uri-target, handle_uri-IsClean}
use hottpd.Uri.{handle_uri}

dots : handle_uri (codes "/a/./b/../c%20d//%2e%2e/x?q=%41#z") [] ≡ (codes "/a/x", codes "q=%41#z")
unfolding handle_uri
dots = refl

above_root : handle_uri (codes "/../../etc/passwd") [] ≡ (codes "/etc/passwd", [])
unfolding handle_uri
above_root = refl

abbrev raw : Bytes
raw = codes "a/../..//b%2e?x"

handle_uri-target_example : handle_uri (b'/' ∷ raw) [] ≡ (b'/' ∷ target raw, query_of raw [])
handle_uri-target_example = handle_uri-target raw [] (omega arith)

handle_uri-IsClean_example :
    (path : Bytes) × ((handle_uri (b'/' ∷ raw) []).0 ≡ b'/' ∷ path) × IsClean path
handle_uri-IsClean_example = handle_uri-IsClean raw [] (omega arith)
