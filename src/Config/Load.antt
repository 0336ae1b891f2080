-- ===== src/Config/Load.antt =====
-- `ServerConfig::LoadConf` (src/configreader.cpp): the loop over the lines.
use hottpd.Base.{
  ℕ, ◌+◌, false, ◌||◌, Option, none, some, List, [], ◌∷◌, ◌++◌, ◌==◌, if◌then◌else◌, Bytes,
  is_empty,
}
use mathlib.Core.Bool.{not}
use hottpd.Config.{
  ConfigData, ConfError, not_opened, no_value, unterminated_comment, unterminated_quote, garbage,
  unterminated_section, Loader, next, skip, break, fails, act,
}

pub data Loaded (A : Type 0) : Type 0 where
  loaded : A → Loaded A
  error : ConfError → Loaded A

-- The lines that `getline` gives.
unfoldable pub text_lines : Bytes → Bytes → List Bytes
text_lines line [] = if is_empty line then [] else line ∷ []
text_lines line (c ∷ rest) =
    let ended = line ∷ text_lines [] rest in
    let longer = text_lines (line ++ c ∷ []) rest in if c == 10 then ended else longer

-- The loop over the bytes of a line.
unfoldable pub scan_line : ℕ → Bytes → Loader → Loaded Loader
unfolding act
scan_line number [] l = loaded l
scan_line number (ch ∷ []) l = elim (act ch none l) [
  | next l' ↦ loaded l'
  | skip l' ↦ loaded l'
  | break l' ↦ loaded l'
  | fails e ↦ error (e number)
]
scan_line number (ch ∷ d ∷ rest) l = elim (act ch (some d) l) [
  | next l' ↦ scan_line number (d ∷ rest) l'
  | skip l' ↦ scan_line number rest l'
  | break l' ↦ loaded l'
  | fails e ↦ error (e number)
]

-- What follows the loop over a line.
unfoldable pub end_line : ℕ → Loader → Loaded Loader
end_line number l =
    if l.in_quote
    then loaded (record l { wordbuffer = l.wordbuffer ++ 10 ∷ [] })
    else if is_empty l.itemname
    then loaded (record l { in_word = false })
    else if is_empty l.wordbuffer
    then error (no_value number)
    else loaded (record l {
      in_word = false;
      sectiondata = l.sectiondata ++ (l.itemname, l.wordbuffer) ∷ [];
      wordbuffer = [];
      itemname = [];
    })

abbrev pub then_load : {A : Type 0} {B : Type 0} → Loaded A → (A → Loaded B) → Loaded B
then_load (loaded a) f = f a
then_load (error e) f = error e

unfoldable pub load_line : ℕ → Bytes → Loader → Loaded Loader
unfolding scan_line end_line
load_line number line l = then_load (scan_line number line l) (end_line number)

unfoldable pub load_lines : ℕ → List Bytes → Loader → Loaded Loader
unfolding load_line
load_lines number [] l = loaded l
load_lines number (line ∷ lines) l =
    then_load (load_line number line l) (load_lines (number + 1) lines)

unfoldable pub end_file : Loader → Loaded ConfigData
end_file l =
    if l.in_ml_comment
    then error unterminated_comment
    else if l.in_quote
    then error unterminated_quote
    else if not (is_empty l.itemname) || not (is_empty l.wordbuffer)
    then error garbage
    else if not (is_empty l.section)
    then error unterminated_section
    else loaded l.target

abbrev pub begins : ConfigData → Loader
begins target = record {
  wordbuffer = [];
  section = [];
  itemname = [];
  in_word = false;
  in_quote = false;
  in_ml_comment = false;
  sectiondata = [];
  target = target;
}

-- The file's text, if it could be opened. What an error leaves in `target` is not kept.
unfoldable pub load_conf : Option Bytes → ConfigData → Loaded ConfigData
unfolding text_lines load_lines end_file
load_conf none target = error not_opened
load_conf (some text) target =
    then_load (load_lines 1 (text_lines [] text) (begins target)) end_file
