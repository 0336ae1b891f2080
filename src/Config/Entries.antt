-- ===== src/Config/Entries.antt =====
-- `ServerConfig::Read` (src/configreader.cpp): the tags that may stand once. Their table is `values`,
-- the loop over it `read_values`.
pub mod Same
pub mod Steps
pub mod Ranges
pub mod Bounds
pub mod Typed
pub mod Suited
use hottpd.Base.{
  ℕ, ltb, Bool, true, false, ◌||◌, Option, none, some, List, [], ◌∷◌, if◌then◌else◌, Bytes, codes,
  length, ℤ,
}
use mathlib.Core.Bool.{not}
use hottpd.Config.{ConfigData}
use hottpd.Config.Values.{conf_value}
use hottpd.Config.Item.{strlcpy, get_integer, get_bool}
use hottpd.Config.Settings.{
  ServerConfig, ValueContainer, value_container_char, value_container_int, value_container_uint,
  value_container_bool, capacity, set_char, set_int, unsigned, set_bool, the_doc_root,
  the_debug_name, the_mod_path, the_custom_version, the_pid, the_set_user, the_set_group,
  the_ch_root, the_net_buffer_size, the_stat_cache_duration, the_max_conn, the_keep_alive_max,
  the_timeout_cull_frequency, the_timeout_total_lifetime, the_timeout_idle_lifetime,
  the_max_post_body, the_maximum_dynamic_processes, the_follow_sym_links, the_no_atime,
}
use hottpd.Config.Validators.{
  CoreException, failed_to_validate, Directories, Validated, answered, threw, Validator,
  validate_no_spaces, validate_hostname, validate_ip, no_validation, validate_soft_limit,
  validate_max_conn, validate_net_buffer_size, validate_log_level, validate_dir,
}

pub data DataKind : Type 0 where
  dt_nothing dt_integer dt_charptr dt_boolean dt_hostname dt_nospaces dt_ipaddress : DataKind

-- A datatype with its two flags.
pub record ConfigDataType : Type 0 where
  pub kind : DataKind
  pub allow_wild : Bool
  pub allow_newline : Bool

pub record InitialConfig (World : Type 0) : Type 0 where
  pub tag : Bytes
  pub value : Bytes
  pub default_value : Bytes
  pub val : ValueContainer
  pub datatype : ConfigDataType
  pub validation_function : Validator World

-- What `configure` writes into the program.
pub record Build : Type 0 where
  pub max_buf : ℕ
  pub max_clients : ℕ
  pub max_clients_s : Bytes
  pub somaxconn_s : Bytes
  pub mod_path : Bytes

pub record Reader (World : Type 0) : Type 0 where
  pub config_data : ConfigData
  pub conf : ServerConfig
  pub world : World

-- `undefined`: a container is used as one of another kind, or more is copied than an array holds.
pub data Stored : Type 0 where
  stored : ServerConfig → Stored
  refused : CoreException → Stored
  undefined : Stored

-- `memcpy` of the text with its NUL.
unfoldable pub store_text : ℕ → ValueContainer → Bytes → ServerConfig → Stored
unfolding capacity set_char
store_text max_buf (value_container_char a) text conf =
    if ltb (length text) (capacity max_buf a) then stored (set_char a text conf) else undefined
store_text max_buf _ text conf = undefined

-- The container of an unsigned int is used as one of an int, which has the same size.
unfoldable pub store_int : ValueContainer → ℤ → ServerConfig → Stored
unfolding set_int unsigned
store_int (value_container_int m) n conf = stored (set_int m n conf)
store_int value_container_uint n conf = stored (record conf { soft_limit = unsigned n })
store_int _ n conf = undefined

unfoldable pub store_bool : ValueContainer → Bool → ServerConfig → Stored
unfolding set_bool
store_bool (value_container_bool m) b conf = stored (set_bool m b conf)
store_bool _ b conf = undefined

abbrev pub unless : Option CoreException → Stored → Stored
unless (some e) done = refused e
unless none done = done

abbrev pub text_of : Option Bytes → Bytes
text_of none = []
text_of (some value) = value

abbrev pub plain : DataKind → ConfigDataType
plain kind = record { kind = kind; allow_wild = false; allow_newline = false }

-- How reading ends: with the settings so far, by a throw, or in `undefined`.
pub data Reading (World : Type 0) : Type 0 where
  reads : Reader World → Reading World
  throws : CoreException → Reader World → Reading World
  breaks : Reading World

module _ {World : Type 0} (build : Build) where
  -- The switch of the loop. It is over the datatype with its flags, so that one with a flag is none of
  -- its cases.
  unfoldable pub store : InitialConfig World → Bytes → ServerConfig → Stored
  unfolding store_text store_int store_bool validate_no_spaces validate_hostname validate_ip
      get_integer get_bool
  store e item conf =
      let text = store_text build.max_buf e.val item conf in
      if e.datatype.allow_wild || e.datatype.allow_newline
      then stored conf
      else elim e.datatype.kind [
        | dt_nospaces ↦ unless (validate_no_spaces item e.tag e.value) text
        | dt_hostname ↦ unless (validate_hostname item e.tag e.value) text
        | dt_ipaddress ↦ unless (validate_ip item e.tag e.value e.datatype.allow_wild) text
        | dt_charptr ↦ text
        | dt_integer ↦ store_int e.val (get_integer item) conf
        | dt_boolean ↦ store_bool e.val (get_bool item) conf
        | dt_nothing ↦ stored conf
      ]

  -- After the validator has answered.
  unfoldable pub take_value :
      InitialConfig World → ConfigData → ServerConfig → Validated World → Reading World
  unfolding store
  take_value e data' before (threw error w) =
      throws error (record { config_data = data'; conf = before; world = w })
  take_value e data' before (answered valid item conf w) =
      let r : Reader World = record { config_data = data'; conf = conf; world = w } in
      if not valid then throws failed_to_validate r else elim (store e item conf) [
        | stored conf' ↦ reads (record r { conf = conf' })
        | refused error ↦ throws error r
        | undefined ↦ breaks
      ]

  -- The body of the loop.
  unfoldable pub read_value : InitialConfig World → Reader World → Reading World
  unfolding conf_value strlcpy take_value
  read_value e r =
      let (found, data') =
        conf_value r.config_data e.tag e.value e.default_value 0 e.datatype.allow_newline in
      let item = strlcpy (text_of found) build.max_buf in
      take_value e data' r.conf (e.validation_function r.conf e.tag item r.world)

  unfoldable pub read_values : List (InitialConfig World) → Reader World → Reading World
  unfolding read_value
  read_values [] r = reads r
  read_values (e ∷ es) r = elim (read_value e r) [
    | reads r' ↦ read_values es r'
    | throws error r' ↦ throws error r'
    | breaks ↦ breaks
  ]
