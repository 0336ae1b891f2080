-- ===== src/Config/Read/Counts.antt =====
-- What looking values up does to the configuration: `ConfValue` and the loop over the table of
-- `ServerConfig::Read` (src/configreader.cpp). It leaves the number of tags of each name as it is.
use hottpd.Base.{ap, ℕ, zero, suc, ◌≡◌, refl, ◌∙◌, Bool, true, false, List, [], ◌∷◌, Bytes, arith}
use hottpd.Config.{ConfigData}
use hottpd.Config.Values.{conf_value, conf_value_enum, find_value}
use hottpd.Config.Item.{strlcpy}
use hottpd.Config.Settings.{ServerConfig}
use hottpd.Config.Validators.{Validated, answered, threw}
use hottpd.Config.Entries.{
  Build, text_of, InitialConfig, Reader, Reading, stored, refused, undefined, reads, throws, breaks,
  store, take_value, read_value, read_values,
}

abbrev pub SameCounts : ConfigData → ConfigData → Type 0
SameCounts target after = (tag : Bytes) → conf_value_enum after tag ≡ conf_value_enum target tag

find_value-counts :
    (tag var : Bytes) (index : ℕ) (allow_linefeeds : Bool) (target : ConfigData)
    → SameCounts target (find_value tag var index allow_linefeeds target).1
unfolding find_value conf_value_enum
find_value-counts tag var index allow_linefeeds [] other = refl
find_value-counts tag var zero allow_linefeeds ((name, items) ∷ target) other =
    ground (arith, find_value-counts tag var zero allow_linefeeds target other)
find_value-counts tag var (suc index) allow_linefeeds ((name, items) ∷ target) other = ground (
  arith,
  find_value-counts tag var index allow_linefeeds target other,
  find_value-counts tag var (suc index) allow_linefeeds target other,
)

pub conf_value-counts :
    (target : ConfigData) (tag var default_value : Bytes) (index : ℕ) (allow_linefeeds : Bool)
    → SameCounts target (conf_value target tag var default_value index allow_linefeeds).1
unfolding conf_value
conf_value-counts target tag var default_value index allow_linefeeds other =
    ground (arith, find_value-counts tag var index allow_linefeeds target other)

-- One configuration is the other after some values have been looked up.
pub data Looked (target : ConfigData) : ConfigData → Type 0 where
  unlooked : Looked target target
  looks :
      {after : ConfigData} (now : ConfigData) (tag var default_value : Bytes) (index : ℕ)
      (allow_linefeeds : Bool)
      → Looked target after
      → now ≡ (conf_value after tag var default_value index allow_linefeeds).1
      → Looked target now

pub Looked-trans : {a b c : ConfigData} → Looked a b → Looked b c → Looked a c
Looked-trans p unlooked = p
Looked-trans p (looks now tag var default_value index allow q e) =
    looks now tag var default_value index allow (Looked-trans p q) e

pub Looked-counts : {a b : ConfigData} → Looked a b → SameCounts a b
Looked-counts unlooked other = refl
Looked-counts (looks {after} now tag var default_value index allow q e) other =
    ap (λ t. conf_value_enum t other) e
    ∙ conf_value-counts after tag var default_value index allow other
    ∙ Looked-counts q other

pub conf_value-Looked :
    (target : ConfigData) (tag var default_value : Bytes) (index : ℕ) (allow : Bool)
    → Looked target (conf_value target tag var default_value index allow).1
conf_value-Looked target tag var default_value index allow =
    looks _ tag var default_value index allow unlooked refl

module _ {World : Type 0} (build : Build) where
  -- However reading ends.
  abbrev pub Kept : ConfigData → Reading World → Type 0
  Kept target (reads r) = Looked target r.config_data
  Kept target (throws e r) = Looked target r.config_data
  Kept target breaks = Unit

  take_value-Kept :
      (e : InitialConfig World) (target data' : ConfigData) (before : ServerConfig)
      (answer : Validated World)
      → Looked target data'
      → Kept target (take_value build e data' before answer)
  unfolding take_value
  take_value-Kept e target data' before (threw error w) same = same
  take_value-Kept e target data' before (answered false item conf w) same = same
  take_value-Kept e target data' before (answered true item conf w) same =
      elim (store build e item conf)
        as (λ o. Kept target (elim o [
          | stored conf' ↦ reads (record { config_data = data'; conf = conf'; world = w })
          | refused error ↦ throws error (record { config_data = data'; conf = conf; world = w })
          | undefined ↦ breaks
        ])) [ stored conf' ↦ same | refused error ↦ same | undefined ↦ tt ]

  read_value-Kept :
      (e : InitialConfig World) (r : Reader World) → Kept r.config_data (read_value build e r)
  unfolding read_value
  read_value-Kept e r =
      let found =
        conf_value r.config_data e.tag e.value e.default_value 0 e.datatype.allow_newline in
      take_value-Kept e r.config_data found.1 r.conf
        (e.validation_function r.conf e.tag (strlcpy (text_of found.0) build.max_buf) r.world)
        (conf_value-Looked r.config_data e.tag e.value e.default_value 0 e.datatype.allow_newline)

  Kept-trans :
      (target after : ConfigData) (end : Reading World)
      → Looked target after
      → Kept after end
      → Kept target end
  Kept-trans target after (reads r) p q = Looked-trans p q
  Kept-trans target after (throws e r) p q = Looked-trans p q
  Kept-trans target after breaks p q = tt

  then_Kept :
      (es : List (InitialConfig World)) (target : ConfigData) (one : Reading World)
      → ((r' : Reader World) → Kept r'.config_data (read_values build es r'))
      → Kept target one
      → Kept target (elim one [
        | reads r' ↦ read_values build es r'
        | throws error r' ↦ throws error r'
        | breaks ↦ breaks
      ])
  then_Kept es target (reads r') onward same =
      Kept-trans target r'.config_data (read_values build es r') same (onward r')
  then_Kept es target (throws e r') onward same = same
  then_Kept es target breaks onward same = tt

  pub read_values-Kept :
      (es : List (InitialConfig World)) (r : Reader World)
      → Kept r.config_data (read_values build es r)
  unfolding read_values
  read_values-Kept [] r = unlooked
  read_values-Kept (e ∷ es) r =
      then_Kept es r.config_data (read_value build e r) (read_values-Kept es) (read_value-Kept e r)
