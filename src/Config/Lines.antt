-- ===== src/Config/Lines.antt =====
-- `LoadConf` (src/configreader.cpp) on one line of what `Config.Print` writes.
use hottpd.Base.{
  ℕ, Bool, true, false, Option, none, some, [], ◌∷◌, ◌++◌, append-nil, append_assoc, ◌≡◌, refl, ap,
  ◌∙◌, Bytes, is_empty, All, arith,
}
use hottpd.Config.{KeyValList, ConfigData, Loader, next, act}
use hottpd.Config.Load.{loaded, scan_line, end_line, then_load, load_line, begins}
use hottpd.Config.Print.{IsPlain, IsName, IsQuotable, IsValue, IsItem, open_line, item_line}

-- A loader outside of comments.
abbrev pub at : Bytes → Bytes → Bytes → Bool → Bool → KeyValList → ConfigData → Loader
at wordbuffer section itemname in_word in_quote sectiondata target = record {
  wordbuffer = wordbuffer;
  section = section;
  itemname = itemname;
  in_word = in_word;
  in_quote = in_quote;
  in_ml_comment = false;
  sectiondata = sectiondata;
  target = target;
}

-- A byte after which the loop goes on with the next one.
scan_line-next :
    (number ch : ℕ) (rest : Bytes) (l l' : Loader)
    → ((peek : Option ℕ) → act ch peek l ≡ next l')
    → scan_line number (ch ∷ rest) l ≡ scan_line number rest l'
unfolding scan_line
scan_line-next number ch [] l l' h = rw (scan_line, h none)
scan_line-next number ch (d ∷ rest) l l' h = rw (scan_line, h (some d))

act_plain :
    (ch : ℕ) (peek : Option ℕ) (wordbuffer section itemname : Bytes) (items : KeyValList)
    (target : ConfigData)
    → IsPlain ch
    → act ch peek (at wordbuffer section itemname true false items target)
      ≡ next (at (wordbuffer ++ ch ∷ []) section itemname true false items target)
unfolding act
act_plain ch peek wordbuffer section itemname items target h = ground arith

act_first :
    (ch : ℕ) (peek : Option ℕ) (section : Bytes) (items : KeyValList) (target : ConfigData)
    → IsPlain ch
    → act ch peek (at [] section [] false false items target)
      ≡ next (at (ch ∷ []) section [] true false items target)
unfolding act
act_first ch peek section items target h = ground arith

act_quoted :
    (ch : ℕ) (peek : Option ℕ) (wordbuffer section itemname : Bytes) (items : KeyValList)
    (target : ConfigData)
    → IsQuotable ch
    → act ch peek (at wordbuffer section itemname true true items target)
      ≡ next (at (wordbuffer ++ ch ∷ []) section itemname true true items target)
unfolding act
act_quoted ch peek wordbuffer section itemname items target h = ground (arith, h.0)

module _ (number : ℕ) (rest : Bytes) (items : KeyValList) (target : ConfigData) where
  scan_plain :
      (section itemname wordbuffer word : Bytes)
      → All IsPlain word
      → scan_line number (word ++ rest) (at wordbuffer section itemname true false items target)
        ≡ scan_line number rest (at (wordbuffer ++ word) section itemname true false items target)
  scan_plain section itemname wordbuffer [] h = rw (append-nil wordbuffer)
  scan_plain section itemname wordbuffer (c ∷ word) h =
      scan_line-next number c (word ++ rest) _ _
        (λ peek. act_plain c peek wordbuffer section itemname items target h.0)
      ∙ scan_plain section itemname (wordbuffer ++ c ∷ []) word h.1
      ∙ ap (λ w. scan_line number rest (at w section itemname true false items target))
          (append_assoc wordbuffer (c ∷ []) word)

  scan_word :
      (section word : Bytes)
      → IsName word
      → scan_line number (word ++ rest) (at [] section [] false false items target)
        ≡ scan_line number rest (at word section [] true false items target)
  scan_word section [] h = cc h.0
  scan_word section (c ∷ word) h =
      scan_line-next number c (word ++ rest) _ _
        (λ peek. act_first c peek section items target h.1.0)
      ∙ scan_plain section [] (c ∷ []) word h.1.1

  scan_quoted :
      (section itemname wordbuffer value : Bytes)
      → All IsQuotable value
      → scan_line number (value ++ rest) (at wordbuffer section itemname true true items target)
        ≡ scan_line number rest (at (wordbuffer ++ value) section itemname true true items target)
  scan_quoted section itemname wordbuffer [] h = rw (append-nil wordbuffer)
  scan_quoted section itemname wordbuffer (c ∷ value) h =
      scan_line-next number c (value ++ rest) _ _
        (λ peek. act_quoted c peek wordbuffer section itemname items target h.0)
      ∙ scan_quoted section itemname (wordbuffer ++ c ∷ []) value h.1
      ∙ ap (λ w. scan_line number rest (at w section itemname true true items target))
          (append_assoc wordbuffer (c ∷ []) value)

module _ (number : ℕ) (target : ConfigData) where
  end_open :
      (name : Bytes)
      → is_empty name ≡ false
      → scan_line number (b' ' ∷ b'{' ∷ []) (at name [] [] true false [] target)
        ≡ loaded (at [] name [] false false [] target)
  unfolding scan_line act
  end_open name h = ground (arith, h)

  act_equals :
      (name section : Bytes) (items : KeyValList) (peek : Option ℕ)
      → is_empty section ≡ false
      → act b'=' peek (at name section [] true false items target)
        ≡ next (at [] section name false false items target)
  unfolding act
  act_equals name section items peek h = ground (arith, h)

  act_quote :
      (name section : Bytes) (items : KeyValList) (peek : Option ℕ)
      → is_empty section ≡ false
      → is_empty name ≡ false
      → act b'"' peek (at [] section name false false items target)
        ≡ next (at [] section name true true items target)
  unfolding act
  act_quote name section items peek h n = ground (arith, h, n)

  end_quote :
      (section name value : Bytes) (items : KeyValList)
      → scan_line number (b'"' ∷ []) (at value section name true true items target)
        ≡ loaded (at value section name false false items target)
  unfolding scan_line act
  end_quote section name value items = refl

  pub load_open :
      (name : Bytes)
      → IsName name
      → load_line number (open_line name) (begins target)
        ≡ loaded (at [] name [] false false [] target)
  unfolding load_line end_line
  load_open name h =
      ap (λ r. then_load r (end_line number))
        (scan_word number (b' ' ∷ b'{' ∷ []) [] target [] name h ∙ end_open name h.0)

  scan_item :
      (section : Bytes) (items : KeyValList) (name value : Bytes)
      → IsName section
      → IsName name
      → IsValue value
      → scan_line number (item_line (name, value)) (at [] section [] false false items target)
        ≡ loaded (at value section name false false items target)
  scan_item section items name value s n v =
      scan_word number (b'=' ∷ b'"' ∷ (value ++ b'"' ∷ [])) items target section name n
      ∙ scan_line-next number b'=' (b'"' ∷ (value ++ b'"' ∷ [])) _ _
          (λ peek. act_equals name section items peek s.0)
      ∙ scan_line-next number b'"' (value ++ b'"' ∷ []) _ _
          (λ peek. act_quote name section items peek s.0 n.0)
      ∙ scan_quoted number (b'"' ∷ []) items target section name [] value v.1
      ∙ end_quote section name value items

  end_item :
      (section name value : Bytes) (items : KeyValList)
      → is_empty name ≡ false
      → is_empty value ≡ false
      → end_line number (at value section name false false items target)
        ≡ loaded (at [] section [] false false (items ++ (name, value) ∷ []) target)
  unfolding end_line
  end_item section name value items n v = ground (arith, n, v)

  pub load_item :
      (section : Bytes) (items : KeyValList) (item : Bytes × Bytes)
      → IsName section
      → IsItem item
      → load_line number (item_line item) (at [] section [] false false items target)
        ≡ loaded (at [] section [] false false (items ++ item ∷ []) target)
  unfolding load_line
  load_item section items (name, value) s (n, v) =
      ap (λ r. then_load r (end_line number)) (scan_item section items name value s n v)
      ∙ end_item section name value items n.0 v.0

  pub load_close :
      (section : Bytes) (items : KeyValList)
      → IsName section
      → load_line number (b'}' ∷ []) (at [] section [] false false items target)
        ≡ loaded (begins (target ++ (section, items) ∷ []))
  unfolding load_line scan_line end_line act
  load_close section items h = ground (arith, h.0)
