-- ===== src/Config/Print.antt =====
-- A way to write a configuration down for `LoadConf` (src/configreader.cpp): a line for the name of each section,
-- a line for each item, its value in quotes, and a line for the end of the section.
use hottpd.Base.{ℕ, Bool, true, false, ◌||◌, List, [], ◌∷◌, ◌++◌, ◌==◌, ◌≡◌, Bytes, is_empty, All}
use mathlib.Core.Bool.{not}
use hottpd.Config.{KeyValList, ConfigData}

-- The bytes that mean nothing to `LoadConf`.
abbrev pub is_plain : ℕ → Bool
is_plain c = not (
    c == b'#'
    || c == b'/'
    || c == b'"'
    || c == b'='
    || c == b'{'
    || c == b'}'
    || c == b';'
    || c == 13
    || c == b' '
    || c == 9
    || c == 10)

abbrev pub IsPlain : ℕ → Type 0
IsPlain c = is_plain c ≡ true

abbrev pub IsName : Bytes → Type 0
IsName name = (is_empty name ≡ false) × All IsPlain name

-- A byte of a value in quotes.
abbrev pub IsQuotable : ℕ → Type 0
IsQuotable c = ((c == b'"') ≡ false) × ((c == 10) ≡ false)

abbrev pub IsValue : Bytes → Type 0
IsValue value = (is_empty value ≡ false) × All IsQuotable value

abbrev pub IsItem : Bytes × Bytes → Type 0
IsItem item = IsName item.0 × IsValue item.1

abbrev pub IsSection : Bytes × KeyValList → Type 0
IsSection entry = IsName entry.0 × All IsItem entry.1

abbrev pub open_line : Bytes → Bytes
open_line name = name ++ b' ' ∷ b'{' ∷ []

abbrev pub item_line : Bytes × Bytes → Bytes
item_line item = item.0 ++ b'=' ∷ b'"' ∷ (item.1 ++ b'"' ∷ [])

abbrev pub item_lines : KeyValList → List Bytes → List Bytes
item_lines [] more = more
item_lines (item ∷ items) more = item_line item ∷ item_lines items more

abbrev pub section_lines : ConfigData → List Bytes
section_lines [] = []
section_lines ((name, items) ∷ target) =
    open_line name ∷ item_lines items ((b'}' ∷ []) ∷ section_lines target)

abbrev pub unlines : List Bytes → Bytes
unlines [] = []
unlines (line ∷ lines) = line ++ 10 ∷ unlines lines

unfoldable pub print : ConfigData → Bytes
print target = unlines (section_lines target)
