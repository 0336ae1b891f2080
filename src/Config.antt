-- ===== src/Config.antt =====
-- src/configreader.cpp: the configuration as `LoadConf` reads it. `Config.Load` has the loops,
-- `Config.Values` what is looked up in the result.
pub mod Load
pub mod Values
pub mod Settings
pub mod Validators
pub mod Entries
pub mod Read
pub mod Table
pub mod Item
pub mod WellFormed
pub mod Print
pub mod Lookup
pub mod Tests
pub mod Lines
pub mod RoundTrip
use hottpd.Base.{
  ℕ, ◌+◌, Bool, true, false, ◌&&◌, ◌||◌, Option, none, some, List, [], ◌∷◌, ◌++◌, ◌==◌,
  if◌then◌else◌, Bytes, is_empty,
}
use mathlib.Core.Bool.{not}

abbrev pub KeyValList : Type 0
KeyValList = List (Bytes × Bytes)

-- The sections in the order of the file. A multimap keeps that order among equal names, and the
-- program looks sections up by name only.
abbrev pub ConfigData : Type 0
ConfigData = List (Bytes × KeyValList)

-- What is written to `errorstream`, less the file's name.
pub data ConfError : Type 0 where
  not_opened : ConfError
  unexpected_quote prior_words outside_section stray_equals nested_section unnamed_section :
      ℕ → ConfError
  stray_brace unexpected_end unexpected_word no_value : ℕ → ConfError
  unterminated_comment unterminated_quote garbage unterminated_section : ConfError

-- The variables of `LoadConf`.
pub record Loader : Type 0 where
  pub wordbuffer : Bytes
  pub section : Bytes
  pub itemname : Bytes
  pub in_word : Bool
  pub in_quote : Bool
  pub in_ml_comment : Bool
  pub sectiondata : KeyValList
  pub target : ConfigData

-- How the body of the loop over a line ends: to the next byte, past it, out of the loop, or out of
-- `LoadConf`.
pub data Step : Type 0 where
  next skip : Loader → Step
  break : Loader → Step
  fails : (ℕ → ConfError) → Step

-- `line[c + 1]` is `ch`
abbrev pub followed_by : ℕ → Option ℕ → Bool
followed_by ch none = false
followed_by ch (some d) = d == ch

abbrev pub at_quote : Loader → Step
at_quote l =
    if is_empty l.section || is_empty l.itemname
    then fails unexpected_quote
    else if l.in_word || not (is_empty l.wordbuffer)
    then fails prior_words
    else next (record l { in_quote = true; in_word = true })

abbrev pub at_equals : Loader → Step
at_equals l =
    if is_empty l.section
    then fails outside_section
    else if not (is_empty l.itemname)
    then fails stray_equals
    else next (record l { in_word = false; itemname = l.wordbuffer; wordbuffer = [] })

abbrev pub at_open : Loader → Step
at_open l =
    if not (is_empty l.section)
    then fails nested_section
    else if is_empty l.wordbuffer
    then fails unnamed_section
    else next (record l { in_word = false; section = l.wordbuffer; wordbuffer = [] })

abbrev pub at_close : Loader → Step
at_close l =
    if is_empty l.section
    then fails stray_brace
    else if not (is_empty l.wordbuffer) || not (is_empty l.itemname)
    then fails unexpected_end
    else next (record l {
      target = l.target ++ (l.section, l.sectiondata) ∷ [];
      section = [];
      sectiondata = [];
    })

abbrev pub at_word : ℕ → Loader → Step
at_word ch l =
    if not l.in_word && not (is_empty l.wordbuffer)
    then fails unexpected_word
    else next (record l { wordbuffer = l.wordbuffer ++ ch ∷ []; in_word = true })

-- The body of the loop over a line, at a byte and the one after it.
unfoldable pub act : ℕ → Option ℕ → Loader → Step
act ch peek l =
    if l.in_quote
    then (if ch == b'"'
        then next (record l { in_quote = false; in_word = false })
        else next (record l { wordbuffer = l.wordbuffer ++ ch ∷ [] }))
    else if l.in_ml_comment
    then (if ch == b'*' && followed_by b'/' peek
        then skip (record l { in_ml_comment = false })
        else next l)
    else if ch == b'#' || ch == b'/' && followed_by b'/' peek
    then break l
    else if ch == b'/' && followed_by b'*' peek
    then skip (record l { in_ml_comment = true })
    else if ch == b'"'
    then at_quote l
    else if ch == b'='
    then at_equals l
    else if ch == b'{'
    then at_open l
    else if ch == b'}'
    then at_close l
    else if ch == b';' || ch == 13
    then next l
    else if ch == b' ' || ch == 9
    then next (record l { in_word = false })
    else at_word ch l
