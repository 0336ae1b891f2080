-- ===== src/Config/Settings.antt =====
-- The settings of `ServerConfig` (include/configreader.h) that `Read` fills in, and the containers
-- that point at them. An `int` is a `ℤ`, an `unsigned int` its 32 bits.
use hottpd.Base.{ℕ, ◌-◌, ◌%◌, ◌^◌, suc, Bool, Bytes, ℤ, pos, negsuc}

pub data LogLevel : Type 0 where
  debug verbose default sparse none : LogLevel

-- `debug` is the buffer of `Read` for the log level's name.
pub record ServerConfig : Type 0 where
  pub doc_root : Bytes
  pub debug_name : Bytes
  pub mod_path : Bytes
  pub custom_version : Bytes
  pub pid : Bytes
  pub set_user : Bytes
  pub set_group : Bytes
  pub ch_root : Bytes
  pub soft_limit : ℕ
  pub net_buffer_size : ℤ
  pub stat_cache_duration : ℤ
  pub max_conn : ℤ
  pub keep_alive_max : ℤ
  pub timeout_cull_frequency : ℤ
  pub timeout_total_lifetime : ℤ
  pub timeout_idle_lifetime : ℤ
  pub max_post_body : ℤ
  pub maximum_dynamic_processes : ℤ
  pub follow_sym_links : Bool
  pub no_atime : Bool
  pub log_level : LogLevel
  pub debugging : Bool

pub data CharArray : Type 0 where
  the_doc_root the_debug_name the_mod_path the_custom_version the_pid the_set_user the_set_group
        the_ch_root :
      CharArray

pub data IntMember : Type 0 where
  the_net_buffer_size the_stat_cache_duration the_max_conn the_keep_alive_max : IntMember
  the_timeout_cull_frequency the_timeout_total_lifetime the_timeout_idle_lifetime : IntMember
  the_max_post_body the_maximum_dynamic_processes : IntMember

pub data BoolMember : Type 0 where
  the_follow_sym_links the_no_atime : BoolMember

-- `ValueContainerChar`, `ValueContainerInt`, `ValueContainerUInt` and `ValueContainerBool`.
pub data ValueContainer : Type 0 where
  value_container_char : CharArray → ValueContainer
  value_container_int : IntMember → ValueContainer
  value_container_uint : ValueContainer
  value_container_bool : BoolMember → ValueContainer

-- The size of an array.
unfoldable pub capacity : ℕ → CharArray → ℕ
capacity max_buf the_mod_path = 1024
capacity max_buf _ = max_buf

-- `Set`, by the kind of the container.
unfoldable pub set_char : CharArray → Bytes → ServerConfig → ServerConfig
set_char the_doc_root v c = record c { doc_root = v }
set_char the_debug_name v c = record c { debug_name = v }
set_char the_mod_path v c = record c { mod_path = v }
set_char the_custom_version v c = record c { custom_version = v }
set_char the_pid v c = record c { pid = v }
set_char the_set_user v c = record c { set_user = v }
set_char the_set_group v c = record c { set_group = v }
set_char the_ch_root v c = record c { ch_root = v }

unfoldable pub set_int : IntMember → ℤ → ServerConfig → ServerConfig
set_int the_net_buffer_size v c = record c { net_buffer_size = v }
set_int the_stat_cache_duration v c = record c { stat_cache_duration = v }
set_int the_max_conn v c = record c { max_conn = v }
set_int the_keep_alive_max v c = record c { keep_alive_max = v }
set_int the_timeout_cull_frequency v c = record c { timeout_cull_frequency = v }
set_int the_timeout_total_lifetime v c = record c { timeout_total_lifetime = v }
set_int the_timeout_idle_lifetime v c = record c { timeout_idle_lifetime = v }
set_int the_max_post_body v c = record c { max_post_body = v }
set_int the_maximum_dynamic_processes v c = record c { maximum_dynamic_processes = v }

-- The bits of an int, as an unsigned int.
unfoldable pub unsigned : ℤ → ℕ
unsigned (pos n) = n % 2 ^ 32
unsigned (negsuc n) = 2 ^ 32 - suc n

unfoldable pub set_bool : BoolMember → Bool → ServerConfig → ServerConfig
set_bool the_follow_sym_links v c = record c { follow_sym_links = v }
set_bool the_no_atime v c = record c { no_atime = v }
