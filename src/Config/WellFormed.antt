-- ===== src/Config/WellFormed.antt =====
-- Names and values in what `LoadConf` (src/configreader.cpp) accepts.
use hottpd.Base.{
  ℕ, ◌+◌, Bool, true, false, Option, none, some, List, [], ◌∷◌, ◌++◌, ◌≡◌, if◌then◌else◌, Bytes,
  is_empty, All, arith,
}
use hottpd.Config.{KeyValList, ConfigData, Loader, Step, next, skip, break, fails, act, at_close}
use hottpd.Config.Load.{
  Loaded, loaded, error, text_lines, scan_line, end_line, then_load, load_line, load_lines,
  end_file, begins, load_conf,
}

abbrev pub IsItem : Bytes × Bytes → Type 0
IsItem item = (is_empty item.0 ≡ false) × (is_empty item.1 ≡ false)

abbrev pub IsSection : Bytes × KeyValList → Type 0
IsSection entry = (is_empty entry.0 ≡ false) × All IsItem entry.1

abbrev pub IsWellFormed : ConfigData → Type 0
IsWellFormed = All IsSection

pub record Inv (l : Loader) : Type 0 where
  pub items : All IsItem l.sectiondata
  pub sections : IsWellFormed l.target

abbrev StepOk : Step → Type 0
StepOk (next l) = Inv l
StepOk (skip l) = Inv l
StepOk (break l) = Inv l
StepOk (fails e) = Unit

abbrev pub LoadOk : {A : Type 0} → (A → Type 0) → Loaded A → Type 0
LoadOk P (loaded a) = P a
LoadOk P (error e) = Unit

All-concat :
    {A : Type 0} (P : A → Type 0) (xs : List A) (x : A) → All P xs → P x → All P (xs ++ x ∷ [])
All-concat P [] x h p = (p, tt)
All-concat P (y ∷ xs) x h p = (h.0, All-concat P xs x h.1 p)

if-StepOk : (b : Bool) (x y : Step) → StepOk x → StepOk y → StepOk (if b then x else y)
if-StepOk true x y i j = i
if-StepOk false x y i j = j

at_close-StepOk : (l : Loader) → Inv l → StepOk (at_close l)
at_close-StepOk l i =
    let added : is_empty l.section ≡ false
        → All IsSection (l.target ++ (l.section, l.sectiondata) ∷ []) =
      λ e. All-concat IsSection l.target (l.section, l.sectiondata) i.sections (e, i.items) in
    ground (arith, added)

act-StepOk : (ch : ℕ) (peek : Option ℕ) (l : Loader) → Inv l → StepOk (act ch peek l)
unfolding act
act-StepOk ch peek l i =
    let same : (w s n : Bytes) (a b c : Bool)
        → Inv (record l {
          wordbuffer = w;
          section = s;
          itemname = n;
          in_word = a;
          in_quote = b;
          in_ml_comment = c;
        }) =
      λ w s n a b c. record { items = i.items; sections = i.sections } in
    let closes : StepOk (at_close l) = at_close-StepOk l i in ground arith

scan_line-LoadOk :
    (number : ℕ) (line : Bytes) (l : Loader) → Inv l → LoadOk Inv (scan_line number line l)
unfolding scan_line
scan_line-LoadOk number [] l i = i
scan_line-LoadOk number (ch ∷ []) l i =
    elim (act ch none l)
        as (λ s.
          StepOk s
          → LoadOk Inv (elim s [
            | next l' ↦ loaded l'
            | skip l' ↦ loaded l'
            | break l' ↦ loaded l'
            | fails e ↦ error (e number)
          ])) [ next l' ↦ λ j. j | skip l' ↦ λ j. j | break l' ↦ λ j. j | fails e ↦ λ j. tt ]
      (act-StepOk ch none l i)
scan_line-LoadOk number (ch ∷ d ∷ rest) l i =
    elim (act ch (some d) l)
        as (λ s.
          StepOk s
          → LoadOk Inv (elim s [
            | next l' ↦ scan_line number (d ∷ rest) l'
            | skip l' ↦ scan_line number rest l'
            | break l' ↦ loaded l'
            | fails e ↦ error (e number)
          ])) [
            | next l' ↦ λ j. scan_line-LoadOk number (d ∷ rest) l' j
            | skip l' ↦ λ j. scan_line-LoadOk number rest l' j
            | break l' ↦ λ j. j
            | fails e ↦ λ j. tt
          ]
      (act-StepOk ch (some d) l i)

end_line-LoadOk : (number : ℕ) (l : Loader) → Inv l → LoadOk Inv (end_line number l)
unfolding end_line
end_line-LoadOk number l i =
    ground (arith, All-concat IsItem l.sectiondata (l.itemname, l.wordbuffer) i.items)

then_load-LoadOk :
    {A B : Type 0} (P : A → Type 0) (Q : B → Type 0) (r : Loaded A) (f : A → Loaded B)
    → LoadOk P r
    → ((a : A) → P a → LoadOk Q (f a))
    → LoadOk Q (then_load r f)
then_load-LoadOk P Q (loaded a) f h k = k a h
then_load-LoadOk P Q (error e) f h k = tt

load_lines-LoadOk :
    (number : ℕ) (lines : List Bytes) (l : Loader) → Inv l → LoadOk Inv (load_lines number lines l)
unfolding load_lines load_line
load_lines-LoadOk number [] l i = i
load_lines-LoadOk number (line ∷ lines) l i =
    then_load-LoadOk Inv Inv (load_line number line l) (load_lines (number + 1) lines)
      (then_load-LoadOk Inv Inv (scan_line number line l) (end_line number)
        (scan_line-LoadOk number line l i) (end_line-LoadOk number))
      (load_lines-LoadOk (number + 1) lines)

end_file-LoadOk : (l : Loader) → Inv l → LoadOk IsWellFormed (end_file l)
unfolding end_file
end_file-LoadOk l i = ground (arith, i.sections)

-- Where `LoadConf` accepts a file, starting from a configuration in which no
-- section and no item has an empty name and no item an empty value, the result is such a
-- configuration.
pub load_conf-WellFormed :
    (file : Option Bytes) (target : ConfigData)
    → IsWellFormed target
    → LoadOk IsWellFormed (load_conf file target)
unfolding load_conf
load_conf-WellFormed none target h = tt
load_conf-WellFormed (some text) target h =
    then_load-LoadOk Inv IsWellFormed (load_lines 1 (text_lines [] text) (begins target)) end_file
      (load_lines-LoadOk 1 (text_lines [] text) (begins target)
        (record { items = tt; sections = h }))
      end_file-LoadOk
