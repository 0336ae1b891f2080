-- ===== src/Mime.antt =====
-- src/mimetypes.cpp and include/mimetypes.h: `MimeManager`, a map from file extensions to types.
pub mod Tests
use hottpd.Base.{
  ◌≡◌, refl, Bool, true, false, List, [], ◌∷◌, if◌then◌else◌, Bytes, eq_bytes, eq_bytes_iff, arith,
}

abbrev pub MimeTypes : Type 0
MimeTypes = List (Bytes × Bytes)

unfoldable pub add_type : Bytes → Bytes → MimeTypes → MimeTypes
add_type ext type [] = (ext, type) ∷ []
add_type ext type ((k, t) ∷ types) =
    if eq_bytes k ext then (k, type) ∷ types else (k, t) ∷ add_type ext type types

-- The type, or an empty string.
unfoldable pub get_type : Bytes → MimeTypes → Bytes
unfolding eq_bytes
get_type ext [] = []
get_type ext ((k, t) ∷ types) = if eq_bytes k ext then t else get_type ext types

-- `AddType` sets the type of its extension, and no other.
pub get_type-add_type :
    (ext other type : Bytes) (types : MimeTypes)
    → get_type other (add_type ext type types)
      ≡ (if eq_bytes ext other then type else get_type other types)
unfolding add_type get_type
get_type-add_type ext other type [] = refl
get_type-add_type ext other type ((k, t) ∷ types) = ground (
  arith,
  get_type-add_type ext other type types,
  eq_bytes_iff k ext,
  eq_bytes_iff k other,
  eq_bytes_iff ext other,
)
