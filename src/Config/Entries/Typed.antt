-- ===== src/Config/Entries/Typed.antt =====
-- Tables whose datatypes suit their containers: the loop over a table in `ServerConfig::Read`
-- (src/configreader.cpp) does nothing undefined with them.
use hottpd.Base.{
  ◌≡◌, ◌≢◌, ◌≤◌, ◌<◌, refl, ap, Bool, true, false, ◌||◌, Option, none, some, List, [], ◌∷◌, ltb,
  Bytes, length, arith, Bool-cases, inl, inr,
}
use hottpd.Config.{ConfigData}
use hottpd.Config.Values.{conf_value}
use hottpd.Config.Item.{strlcpy, get_integer, get_bool}
use hottpd.Config.Settings.{
  ServerConfig, CharArray, ValueContainer, value_container_char, value_container_int,
  value_container_uint, value_container_bool, capacity,
}
use hottpd.Config.Validators.{
  CoreException, answered, threw, Validator, validate_no_spaces, validate_hostname, validate_ip,
}
use hottpd.Config.Entries.{
  DataKind, dt_nothing, dt_integer, dt_charptr, dt_boolean, dt_hostname, dt_nospaces, dt_ipaddress,
  InitialConfig, Build, Reader, Reading, Stored, stored, refused, undefined, unless, text_of,
  store_text, store_int, store_bool, store, take_value, reads, throws, breaks, read_value,
  read_values,
}
use hottpd.Config.Entries.Steps.{capacity_least, strlcpy-fits}

-- The containers that the switch of the loop uses for a datatype.
abbrev pub suits : DataKind → ValueContainer → Bool
suits dt_nothing val = true
suits dt_integer (value_container_int _) = true
suits dt_integer value_container_uint = true
suits dt_integer _ = false
suits dt_boolean (value_container_bool _) = true
suits dt_boolean _ = false
suits _ (value_container_char _) = true
suits _ _ = false

abbrev pub holds_text : ValueContainer → Bool
holds_text (value_container_char _) = true
holds_text _ = false

-- `memcpy` of a short text.
abbrev Defined : Stored → Type 0
Defined s = s ≢ undefined

is_undefined : Stored → Bool
is_undefined undefined = true
is_undefined _ = false

stored-Defined : (c : ServerConfig) → Defined (stored c)
unfolding is_undefined
stored-Defined c e = ground (arith, ap is_undefined e)

unless-Defined : (o : Option CoreException) (s : Stored) → Defined s → Defined (unless o s)
unfolding is_undefined
unless-Defined none s d = λ e. d e
unless-Defined (some error) s d = λ e. ground (arith, ap is_undefined e)

module _ (build : Build) (small : build.max_buf ≤ 1024) where
  store_text-Defined :
      (a : CharArray) (text : Bytes) (conf : ServerConfig)
      → length text < build.max_buf
      → Defined (store_text build.max_buf (value_container_char a) text conf)
  unfolding store_text
  store_text-Defined a text conf short =
      let e : ltb (length text) (capacity build.max_buf a) ≡ true =
        ground (arith, short, capacity_least build.max_buf a small) in
      rw (store_text, e) (stored-Defined _)

  -- What is stored, by the kind of the datatype.
  abbrev by_kind : DataKind → Bytes → Bytes → Bool → ValueContainer → Bytes → ServerConfig → Stored
  by_kind kind tag value wild val item conf =
      let text = store_text build.max_buf val item conf in
      elim kind [
        | dt_nospaces ↦ unless (validate_no_spaces item tag value) text
        | dt_hostname ↦ unless (validate_hostname item tag value) text
        | dt_ipaddress ↦ unless (validate_ip item tag value wild) text
        | dt_charptr ↦ text
        | dt_integer ↦ store_int val (get_integer item) conf
        | dt_boolean ↦ store_bool val (get_bool item) conf
        | dt_nothing ↦ stored conf
      ]

  by_kind-Defined :
      (kind : DataKind) (tag value : Bytes) (wild : Bool) (val : ValueContainer) (item : Bytes)
      (conf : ServerConfig)
      → suits kind val ≡ true
      → (holds_text val ≡ true → length item < build.max_buf)
      → Defined (by_kind kind tag value wild val item conf)
  unfolding store_int store_bool
  by_kind-Defined dt_nothing tag value wild val item conf fits short = stored-Defined _
  by_kind-Defined dt_integer tag value wild (value_container_int m) item conf fits short =
      stored-Defined _
  by_kind-Defined dt_integer tag value wild value_container_uint item conf fits short =
      stored-Defined _
  by_kind-Defined dt_boolean tag value wild (value_container_bool m) item conf fits short =
      stored-Defined _
  by_kind-Defined dt_charptr tag value wild (value_container_char a) item conf fits short =
      store_text-Defined a item conf (short refl)
  by_kind-Defined dt_hostname tag value wild (value_container_char a) item conf fits short =
      unless-Defined _ _ (store_text-Defined a item conf (short refl))
  by_kind-Defined dt_nospaces tag value wild (value_container_char a) item conf fits short =
      unless-Defined _ _ (store_text-Defined a item conf (short refl))
  by_kind-Defined dt_ipaddress tag value wild (value_container_char a) item conf fits short =
      unless-Defined _ _ (store_text-Defined a item conf (short refl))
  by_kind-Defined _ tag value wild val item conf fits short = ground (arith, fits)

  module _ {World : Type 0} where
    store-Defined :
        (e : InitialConfig World) (item : Bytes) (conf : ServerConfig)
        → suits e.datatype.kind e.val ≡ true
        → (holds_text e.val ≡ true → length item < build.max_buf)
        → Defined (store build e item conf)
    unfolding store
    store-Defined e item conf fits short =
        elim (Bool-cases (e.datatype.allow_wild || e.datatype.allow_newline)) [
          | inl f ↦ rw (store, f) (stored-Defined conf)
          | inr f ↦
              rw (store, f)
                (by_kind-Defined e.datatype.kind e.tag e.value e.datatype.allow_wild e.val item conf
                  fits short)
        ]

    -- Where a text is stored, the validator makes no item longer than it may be.
    abbrev pub KeepsShort : Validator World → Type 0
    KeepsShort v =
        (conf conf' : ServerConfig) (tag item item' : Bytes) (w w' : World) (valid : Bool)
        → v conf tag item w ≡ answered valid item' conf' w'
        → length item < build.max_buf
        → length item' < build.max_buf

    pub record IsTyped (e : InitialConfig World) : Type 0 where
      pub suited : suits e.datatype.kind e.val ≡ true
      pub short : holds_text e.val ≡ true → KeepsShort e.validation_function

    goes_on : Reading World → Bool
    goes_on breaks = false
    goes_on _ = true

    then_goes_on :
        (target : ConfigData) (conf : ServerConfig) (w : World) (o : Stored)
        → Defined o
        → goes_on (elim o [
          | stored c ↦ reads (record { config_data = target; conf = c; world = w })
          | refused error ↦ throws error (record { config_data = target; conf = conf; world = w })
          | undefined ↦ breaks
        ])
          ≡ true
    unfolding goes_on
    then_goes_on target conf w (stored c) d = refl
    then_goes_on target conf w (refused error) d = refl
    then_goes_on target conf w undefined d = absurd (d refl)

    take_value-goes_on :
        (e : InitialConfig World) (target : ConfigData) (conf : ServerConfig) (item : Bytes)
        (w : World)
        → IsTyped e
        → length item < build.max_buf
        → goes_on (take_value build e target conf (e.validation_function conf e.tag item w)) ≡ true
    unfolding take_value goes_on
    take_value-goes_on e target conf item w t room =
        elim (e.validation_function conf e.tag item w)
            as (λ a.
              e.validation_function conf e.tag item w ≡ a
              → goes_on (take_value build e target conf a) ≡ true) [
                | threw error w' ↦ λ _. refl
                | answered false item' conf' w' ↦ λ _. refl
                | answered true item' conf' w' ↦ λ is.
                    then_goes_on target conf' w' (store build e item' conf') (
                      store-Defined e item' conf' t.suited
                        (λ text. t.short text conf conf' e.tag item item' w w' true is room))
              ]
          refl

    infixr 4 ◌also◌
    pub data AllTyped : List (InitialConfig World) → Type 0 where
      all_done : AllTyped []
      ◌also◌ :
          {e : InitialConfig World} {es : List (InitialConfig World)}
          → IsTyped e
          → AllTyped es
          → AllTyped (e ∷ es)

    read_values-goes_on :
        (es : List (InitialConfig World)) (r : Reader World)
        → 0 < build.max_buf
        → AllTyped es
        → goes_on (read_values build es r) ≡ true
    unfolding read_values read_value goes_on
    read_values-goes_on [] r some_room all_done = refl
    read_values-goes_on (e ∷ es) r some_room (t also ts) =
        let found =
          conf_value r.config_data e.tag e.value e.default_value 0 e.datatype.allow_newline in
        let item : Bytes = strlcpy (text_of found.0) build.max_buf in
        elim (read_value build e r)
            as (λ a.
              goes_on a ≡ true
              → goes_on (elim a [
                | reads r' ↦ read_values build es r'
                | throws error r' ↦ throws error r'
                | breaks ↦ breaks
              ])
                ≡ true) [
                  | reads r' ↦ λ _. read_values-goes_on es r' some_room ts
                  | throws error r' ↦ λ _. refl
                  | breaks ↦ λ bad. bad
                ]
          (take_value-goes_on e found.1 r.conf item r.world t
            (strlcpy-fits (text_of found.0) build.max_buf some_room))

    -- Take any table in which the datatype of each entry suits its container, and where that is an
    -- array the validator makes no item too long. If MAXBUF is positive and not above 1024, then
    -- whatever the configuration is, the loop over the table uses no container as one of another kind
    -- and copies no more than an array holds.
    pub read_values-IsTyped :
        (es : List (InitialConfig World)) (r : Reader World)
        → 0 < build.max_buf
        → AllTyped es
        → read_values build es r ≢ breaks
    unfolding goes_on
    read_values-IsTyped es r some_room ts breaking =
        let going = read_values-goes_on es r some_room ts in
        ground (arith, going, ap (λ a. goes_on a) breaking)
