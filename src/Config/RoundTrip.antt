-- ===== src/Config/RoundTrip.antt =====
-- `LoadConf` (src/configreader.cpp) on what `Config.Print` writes.
use hottpd.Base.{
  ℕ, ◌+◌, false, some, List, [], ◌∷◌, ◌++◌, append-nil, append_assoc, ◌==◌, ◌≡◌, refl, sym, ap, ◌∙◌,
  Bytes, All, arith,
}
use hottpd.Config.{KeyValList, ConfigData, Loader}
use hottpd.Config.Load.{
  Loaded, loaded, text_lines, then_load, load_line, load_lines, end_file, begins, load_conf,
}
use hottpd.Config.Print.{
  IsPlain, IsName, IsQuotable, IsItem, IsSection, open_line, item_line, item_lines, section_lines,
  unlines, print,
}
use hottpd.Config.Lines.{at, load_open, load_item, load_close}

then_lines :
    (number : ℕ) (line : Bytes) (lines : List Bytes) (l l' : Loader)
    → load_line number line l ≡ loaded l'
    → load_lines number (line ∷ lines) l ≡ load_lines (number + 1) lines l'
unfolding load_lines
then_lines number line lines l l' h = ap (λ r. then_load r (load_lines (number + 1) lines)) h

-- The loaders at the ends of a section's items and of a file.
abbrev Ends : Loaded Loader → Loader → Type 0
Ends r l = r ≡ loaded l

load_item_lines :
    (number : ℕ) (section : Bytes) (items more_items : KeyValList) (more : List Bytes)
    (target : ConfigData) (last : Loader)
    → IsName section
    → All IsItem more_items
    → ((n : ℕ)
        → Ends (load_lines n more (at [] section [] false false (items ++ more_items) target)) last)
    → Ends
        (load_lines number (item_lines more_items more) (at [] section [] false false items target))
        last
load_item_lines number section items [] more target last s h k =
    ap (λ i. load_lines number more (at [] section [] false false i target))
      (sym (append-nil items))
    ∙ k number
load_item_lines number section items (item ∷ more_items) more target last s h k =
    then_lines number (item_line item) (item_lines more_items more) _ _
      (load_item number target section items item s h.0)
    ∙ load_item_lines (number + 1) section (items ++ item ∷ []) more_items more target last s h.1
        (λ n.
          ap (λ i. load_lines n more (at [] section [] false false i target))
            (append_assoc items (item ∷ []) more_items)
          ∙ k n)

load_section_lines :
    (number : ℕ) (target more : ConfigData)
    → All IsSection more
    → Ends (load_lines number (section_lines more) (begins target)) (begins (target ++ more))
unfolding load_lines
load_section_lines number target [] h = ap (λ t. loaded (begins t)) (sym (append-nil target))
load_section_lines number target ((name, items) ∷ more) h =
    then_lines number (open_line name) (item_lines items ((b'}' ∷ []) ∷ section_lines more)) _ _
      (load_open number target name h.0.0)
    ∙ load_item_lines (number + 1) name [] items ((b'}' ∷ []) ∷ section_lines more) target _ h.0.0
        h.0.1
        (λ n.
          then_lines n (b'}' ∷ []) (section_lines more) (at [] name [] false false items target) _
            (load_close n target name items h.0.0)
          ∙ load_section_lines (n + 1) (target ++ (name, items) ∷ []) more h.1
          ∙ ap (λ t. loaded (begins t)) (append_assoc target ((name, items) ∷ []) more))

NoLinefeed : Bytes → Type 0
NoLinefeed = All (λ c. (c == 10) ≡ false)

text_lines-line :
    (acc line rest : Bytes)
    → NoLinefeed line
    → text_lines acc (line ++ 10 ∷ rest) ≡ (acc ++ line) ∷ text_lines [] rest
unfolding text_lines NoLinefeed
text_lines-line acc [] rest h = ap (λ l. l ∷ text_lines [] rest) (sym (append-nil acc))
text_lines-line acc (c ∷ line) rest h = rw h.0 (
    text_lines-line (acc ++ c ∷ []) line rest h.1
    ∙ ap (λ l. l ∷ text_lines [] rest) (append_assoc acc (c ∷ []) line))

text_lines-unlines :
    (lines : List Bytes) → All NoLinefeed lines → text_lines [] (unlines lines) ≡ lines
unfolding text_lines
text_lines-unlines [] h = refl
text_lines-unlines (line ∷ lines) h =
    text_lines-line [] line (unlines lines) h.0 ∙ ap (◌∷◌ line) (text_lines-unlines lines h.1)

NoLinefeed-append : (a b : Bytes) → NoLinefeed a → NoLinefeed b → NoLinefeed (a ++ b)
unfolding NoLinefeed
NoLinefeed-append [] b h k = k
NoLinefeed-append (c ∷ a) b h k = (h.0, NoLinefeed-append a b h.1 k)

plain-NoLinefeed : (word : Bytes) → All IsPlain word → NoLinefeed word
unfolding NoLinefeed
plain-NoLinefeed [] h = tt
plain-NoLinefeed (c ∷ word) h = (ground (arith, h.0), plain-NoLinefeed word h.1)

value-NoLinefeed : (value : Bytes) → All IsQuotable value → NoLinefeed value
unfolding NoLinefeed
value-NoLinefeed [] h = tt
value-NoLinefeed (c ∷ value) h = (h.0.1, value-NoLinefeed value h.1)

item_lines-NoLinefeed :
    (items : KeyValList) (more : List Bytes)
    → All IsItem items
    → All NoLinefeed more
    → All NoLinefeed (item_lines items more)
unfolding NoLinefeed
item_lines-NoLinefeed [] more h k = k
item_lines-NoLinefeed ((name, value) ∷ items) more h k = (
  NoLinefeed-append name (b'=' ∷ b'"' ∷ (value ++ b'"' ∷ [])) (plain-NoLinefeed name h.0.0.1) (
    refl,
    (refl, NoLinefeed-append value (b'"' ∷ []) (value-NoLinefeed value h.0.1.1) (refl, tt)),
  ),
  item_lines-NoLinefeed items more h.1 k,
)

section_lines-NoLinefeed :
    (target : ConfigData) → All IsSection target → All NoLinefeed (section_lines target)
unfolding NoLinefeed
section_lines-NoLinefeed [] h = tt
section_lines-NoLinefeed ((name, items) ∷ target) h = (
  NoLinefeed-append name (b' ' ∷ b'{' ∷ []) (plain-NoLinefeed name h.0.0.1) (refl, (refl, tt)),
  item_lines-NoLinefeed items ((b'}' ∷ []) ∷ section_lines target) h.0.1
      ((refl, tt), section_lines-NoLinefeed target h.1),
)

end_begins : (target : ConfigData) → end_file (begins target) ≡ loaded target
unfolding end_file
end_begins target = refl

-- A configuration that is written with a line for each section's name, item and end is read back
-- as it was, after what was there before, where names hold only bytes that mean nothing to
-- `LoadConf`, values hold no quote and no line feed, and neither is empty.
pub load_conf-print :
    (target more : ConfigData)
    → All IsSection more
    → load_conf (some (print more)) target ≡ loaded (target ++ more)
unfolding load_conf print
load_conf-print target more h =
    ap (λ lines. then_load (load_lines 1 lines (begins target)) end_file)
      (text_lines-unlines (section_lines more) (section_lines-NoLinefeed more h))
    ∙ ap (λ r. then_load r end_file) (load_section_lines 1 target more h)
    ∙ end_begins (target ++ more)
