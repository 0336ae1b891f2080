-- ===== src/Headers.antt =====
-- include/connections.h: `HTTPHeaders`, a `std::map` ordered by `utils::StrCaseLess` of
-- include/hashcomp.h. The map is its list of entries in order; `strcasecmp` of two names is 0 when
-- neither is less than the other.
mod Order
pub mod Laws
pub mod Tests
use Order.{Cmp, lt, eq, gt, compare_names}
use hottpd.Base.{
  Bool, true, false, Option, none, some, List, [], ◌∷◌, ◌++◌, if◌then◌else◌, Bytes, codes,
}
unfoldable pub use Order.{same_name, fold_name}
pub use Order.{same_name_iff}

pub record Header : Type 0 where
  pub name : Bytes
  pub value : Bytes

abbrev pub Headers : Type 0
Headers = List Header

unfoldable pub set_header : Bytes → Bytes → Headers → Headers
set_header name value [] = record { name = name; value = value } ∷ []
set_header name value (h ∷ hs) =
    let later = h ∷ set_header name value hs in
    elim (compare_names name h.name) [
      | lt ↦ record { name = name; value = value } ∷ h ∷ hs
      | eq ↦ record h { value = value } ∷ hs
      | gt ↦ later
    ]

unfoldable pub find : Bytes → Headers → Option Bytes
find name [] = none
find name (h ∷ hs) = if same_name name h.name then some h.value else find name hs

unfoldable pub is_set : Bytes → Headers → Bool
is_set name hs = elim (find name hs) [ none ↦ false | some _ ↦ true ]

-- The value, or an empty string.
unfoldable pub get_header : Bytes → Headers → Bytes
get_header name hs = elim (find name hs) [ none ↦ [] | some value ↦ value ]

unfoldable pub create_header : Bytes → Bytes → Headers → Headers
create_header name value hs = if is_set name hs then hs else set_header name value hs

unfoldable pub remove_header : Bytes → Headers → Headers
remove_header name [] = []
remove_header name (h ∷ hs) =
    let rest = remove_header name hs in if same_name name h.name then rest else h ∷ rest

abbrev pub clear : Headers → Headers
clear hs = []

unfoldable pub formatted : Headers → Bytes
formatted [] = []
formatted (h ∷ hs) = h.name ++ codes ": " ++ h.value ++ codes "\r\n" ++ formatted hs
