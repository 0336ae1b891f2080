-- ===== src/Config/Values.antt =====
-- `ServerConfig::ConfValue`, `ConfValueBool`, `ConfValueEnum` and `ConfVarEnum`
-- (src/configreader.cpp). An index is not negative.
use hottpd.Base.{
  ℕ, zero, suc, ltb, Bool, true, false, ◌&&◌, ◌||◌, Option, none, some, [], ◌∷◌, ◌==◌,
  if◌then◌else◌, Bytes, codes, is_empty, eq_bytes, find_char, length,
}
use mathlib.Core.Bool.{not}
use mathlib.Core.List.{map}
use hottpd.Config.{KeyValList, ConfigData}

unfoldable pub conf_value_enum : ConfigData → Bytes → ℕ
unfolding eq_bytes
conf_value_enum [] tag = 0
conf_value_enum ((name, items) ∷ target) tag =
    let more = conf_value_enum target tag in if eq_bytes name tag then suc more else more

abbrev pub strip : Bytes → Bytes
strip = map (λ c. if c == 10 then b' ' else c)

abbrev pub has_linefeed : Bytes → Bool
has_linefeed value = elim (find_char 10 value) [ none ↦ false | some _ ↦ true ]

-- The loop over the items of a section. A value with a linefeed that may not have one is stripped
-- in place, and the loop goes on.
unfoldable pub find_item : Bytes → Bool → KeyValList → Option Bytes × KeyValList
unfolding find_char
find_item var allow_linefeeds [] = (none, [])
find_item var allow_linefeeds ((name, value) ∷ items) =
    let (found, rest) = find_item var allow_linefeeds items in
    if eq_bytes name var
    then if not allow_linefeeds && has_linefeed value
      then (found, (name, strip value) ∷ rest)
      else (some value, (name, value) ∷ items)
    else (found, (name, value) ∷ rest)

-- The items of the section of a name at an index, and the configuration after the loop over them.
unfoldable pub find_value : Bytes → Bytes → ℕ → Bool → ConfigData → Option Bytes × ConfigData
unfolding find_item
find_value tag var index allow_linefeeds [] = (none, [])
find_value tag var zero allow_linefeeds ((name, items) ∷ target) =
    let (found, items') = find_item var allow_linefeeds items in
    let (later, rest) = find_value tag var zero allow_linefeeds target in
    if eq_bytes name tag then (found, (name, items') ∷ target) else (later, (name, items) ∷ rest)
find_value tag var (suc index) allow_linefeeds ((name, items) ∷ target) =
    let (after, rest_after) = find_value tag var index allow_linefeeds target in
    let (later, rest) = find_value tag var (suc index) allow_linefeeds target in
    if eq_bytes name tag then (after, (name, items) ∷ rest_after) else (later, (name, items) ∷ rest)

-- `none` is the result false, with `result` left as it is.
unfoldable pub conf_value :
    ConfigData → Bytes → Bytes → Bytes → ℕ → Bool → Option Bytes × ConfigData
unfolding find_value conf_value_enum
conf_value target tag var default_value index allow_linefeeds =
    let default : Option Bytes = if is_empty default_value then none else some default_value in
    let (found, target') = find_value tag var index allow_linefeeds target in
    if ltb index (conf_value_enum target tag)
    then elim found [ some value ↦ (some value, target') | none ↦ (default, target') ]
    else if index == 0
    then (default, target)
    else (none, target)

unfoldable pub conf_value_bool : ConfigData → Bytes → Bytes → Bytes → ℕ → Bool × ConfigData
unfolding conf_value
conf_value_bool target tag var default_value index =
    let (result, target') = conf_value target tag var default_value index false in
    elim result [
      | none ↦ (false, target')
      | some value ↦ (
        eq_bytes value (codes "yes") || eq_bytes value (codes "true") || eq_bytes value (codes "1"),
        target',
      )
    ]

unfoldable pub conf_var_enum : ConfigData → Bytes → ℕ → ℕ
conf_var_enum [] tag index = 0
conf_var_enum ((name, items) ∷ target) tag zero =
    let later = conf_var_enum target tag zero in if eq_bytes name tag then length items else later
conf_var_enum ((name, items) ∷ target) tag (suc index) =
    let after = conf_var_enum target tag index in
    let later = conf_var_enum target tag (suc index) in if eq_bytes name tag then after else later
