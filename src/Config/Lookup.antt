-- ===== src/Config/Lookup.antt =====
-- What `ConfValue` finds, said without its loops.
use hottpd.Base.{
  ℕ, zero, suc, ltb, Bool, true, false, ◌&&◌, ◌||◌, Option, none, some, List, [], ◌∷◌, ◌==◌, ◌≡◌,
  refl, ap, ◌∙◌, inl, inr, if◌then◌else◌, Bytes, is_empty, eq_bytes, length, get_elem?, arith,
  Bool-cases,
}
use mathlib.Core.Bool.{not}
use hottpd.Config.{KeyValList, ConfigData}
use hottpd.Config.Values.{conf_value_enum, has_linefeed, find_item, find_value, conf_value}

-- The sections of a name, in order.
abbrev pub named : Bytes → ConfigData → List KeyValList
named tag [] = []
named tag ((name, items) ∷ target) =
    if eq_bytes name tag then items ∷ named tag target else named tag target

-- The first value of a name that may be used.
abbrev pub first : Bytes → Bool → KeyValList → Option Bytes
first var allow_linefeeds [] = none
first var allow_linefeeds ((name, value) ∷ items) =
    if eq_bytes name var && (allow_linefeeds || not (has_linefeed value))
    then some value
    else first var allow_linefeeds items

abbrev or_default : Bytes → Option Bytes → Option Bytes
or_default default_value (some value) = some value
or_default default_value none = if is_empty default_value then none else some default_value

-- The section at an index, or the default if the program asks for the first.
abbrev pub looked_up : ConfigData → Bytes → Bytes → Bytes → ℕ → Bool → Option Bytes
looked_up target tag var default_value index allow_linefeeds =
    elim (get_elem? (named tag target) index) [
      | some items ↦ or_default default_value (first var allow_linefeeds items)
      | none ↦ if index == 0 then or_default default_value none else none
    ]

find_item-first :
    (var : Bytes) (allow_linefeeds : Bool) (items : KeyValList)
    → (find_item var allow_linefeeds items).0 ≡ first var allow_linefeeds items
unfolding find_item
find_item-first var allow_linefeeds [] = refl
find_item-first var allow_linefeeds ((name, value) ∷ items) =
    ground (arith, find_item-first var allow_linefeeds items)

conf_value_enum-named :
    (tag : Bytes) (target : ConfigData) → conf_value_enum target tag ≡ length (named tag target)
unfolding conf_value_enum
conf_value_enum-named tag [] = refl
conf_value_enum-named tag ((name, items) ∷ target) =
    ground (arith, conf_value_enum-named tag target)

found_in : Bytes → Bool → Option KeyValList → Option Bytes
found_in var allow_linefeeds none = none
found_in var allow_linefeeds (some items) = first var allow_linefeeds items

find_value-named :
    (tag var : Bytes) (index : ℕ) (allow_linefeeds : Bool) (target : ConfigData)
    → (find_value tag var index allow_linefeeds target).0
      ≡ found_in var allow_linefeeds (get_elem? (named tag target) index)
unfolding find_value found_in
find_value-named tag var index allow_linefeeds [] = refl
find_value-named tag var zero allow_linefeeds ((name, items) ∷ target) = ground (
  arith,
  find_value-named tag var zero allow_linefeeds target,
  find_item-first var allow_linefeeds items,
)
find_value-named tag var (suc index) allow_linefeeds ((name, items) ∷ target) = ground (
  arith,
  find_value-named tag var index allow_linefeeds target,
  find_value-named tag var (suc index) allow_linefeeds target,
)

get_elem?-beyond :
    {A : Type 0} (xs : List A) (i : ℕ) → ltb i (length xs) ≡ false → get_elem? xs i ≡ none
get_elem?-beyond [] i h = refl
get_elem?-beyond (x ∷ xs) zero h = ground arith
get_elem?-beyond (x ∷ xs) (suc i) h = get_elem?-beyond xs i (ground arith)

get_elem?-within :
    {A : Type 0} (xs : List A) (i : ℕ)
    → ltb i (length xs) ≡ true
    → (x : A) × (get_elem? xs i ≡ some x)
get_elem?-within [] i h = ground arith
get_elem?-within (x ∷ xs) zero h = (x, refl)
get_elem?-within (x ∷ xs) (suc i) h = get_elem?-within xs i (ground arith)

-- `ConfValue` gives the first value of its name in the section at the index, passing over values
-- with a line feed where they are not allowed; without one it gives the default, if that is not
-- empty, and beyond the last section it gives the default only for the index 0.
pub conf_value-looked_up :
    (target : ConfigData) (tag var default_value : Bytes) (index : ℕ) (allow_linefeeds : Bool)
    → (conf_value target tag var default_value index allow_linefeeds).0
      ≡ looked_up target tag var default_value index allow_linefeeds
unfolding conf_value found_in
conf_value-looked_up target tag var default_value index allow_linefeeds =
    let counted : conf_value_enum target tag ≡ length (named tag target) =
      conf_value_enum-named tag target in
    let found : (find_value tag var index allow_linefeeds target).0
        ≡ found_in var allow_linefeeds (get_elem? (named tag target) index) =
      find_value-named tag var index allow_linefeeds target in
    elim (Bool-cases (ltb index (length (named tag target)))) [
      | inl e ↦
          let (items, here) = get_elem?-within (named tag target) index e in
          let at_items : (find_value tag var index allow_linefeeds target).0
              ≡ first var allow_linefeeds items =
            found ∙ ap (found_in var allow_linefeeds) here in
          rw (counted, e, looked_up, here) (ground (arith, at_items))
      | inr e ↦
          rw (counted, e, looked_up, get_elem?-beyond (named tag target) index e) (ground arith)
    ]
