-- ===== src/Mime/Tests.antt =====
-- Types by extension.
use hottpd.Base.{◌≡◌, codes, [], ◌∷◌, if◌then◌else◌, eq_bytes}
use hottpd.Mime.{MimeTypes, add_type, get_type, get_type-add_type}

abbrev types : MimeTypes
types = (codes "html", codes "text/html") ∷ []

type_added : get_type (codes "html") (add_type (codes "html") (codes "text/plain") types) ≡ (
    if eq_bytes (codes "html") (codes "html")
    then codes "text/plain"
    else get_type (codes "html") types)
type_added = get_type-add_type (codes "html") (codes "html") (codes "text/plain") types
