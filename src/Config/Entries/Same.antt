-- ===== src/Config/Entries/Same.antt =====
-- The settings that a validator looks after, and storing another (include/configreader.h, `Set`).
use hottpd.Base.{◌≡◌, refl, ◌∙◌, Bool, true, false, Bytes, arith, ℤ}
use hottpd.Config.Settings.{
  ServerConfig, set_char, set_int, set_bool, CharArray, IntMember, BoolMember, the_doc_root,
  the_debug_name, the_mod_path, the_custom_version, the_pid, the_set_user, the_set_group,
  the_ch_root, the_net_buffer_size, the_stat_cache_duration, the_max_conn, the_keep_alive_max,
  the_timeout_cull_frequency, the_timeout_total_lifetime, the_timeout_idle_lifetime,
  the_max_post_body, the_maximum_dynamic_processes, the_follow_sym_links, the_no_atime,
}

-- The settings that a validator looks after.
pub record Same (c d : ServerConfig) : Type 0 where
  pub doc_root : d.doc_root ≡ c.doc_root
  pub soft_limit : d.soft_limit ≡ c.soft_limit
  pub net_buffer_size : d.net_buffer_size ≡ c.net_buffer_size
  pub log_level : d.log_level ≡ c.log_level
  pub debugging : d.debugging ≡ c.debugging

pub untouched :
    {c d : ServerConfig}
    → d.doc_root ≡ c.doc_root
    → d.soft_limit ≡ c.soft_limit
    → d.net_buffer_size ≡ c.net_buffer_size
    → d.log_level ≡ c.log_level
    → d.debugging ≡ c.debugging
    → Same c d
untouched p q r t u = record {
  doc_root = p;
  soft_limit = q;
  net_buffer_size = r;
  log_level = t;
  debugging = u;
}

abbrev pub is_doc_root : CharArray → Bool
is_doc_root the_doc_root = true
is_doc_root _ = false

abbrev pub is_net_buffer_size : IntMember → Bool
is_net_buffer_size the_net_buffer_size = true
is_net_buffer_size _ = false

pub set_char-Same :
    (a : CharArray) (v : Bytes) (c : ServerConfig) → is_doc_root a ≡ false → Same c (set_char a v c)
unfolding set_char
set_char-Same the_doc_root v c h = absurd (ground (arith, h))
set_char-Same the_debug_name v c h = untouched refl refl refl refl refl
set_char-Same the_mod_path v c h = untouched refl refl refl refl refl
set_char-Same the_custom_version v c h = untouched refl refl refl refl refl
set_char-Same the_pid v c h = untouched refl refl refl refl refl
set_char-Same the_set_user v c h = untouched refl refl refl refl refl
set_char-Same the_set_group v c h = untouched refl refl refl refl refl
set_char-Same the_ch_root v c h = untouched refl refl refl refl refl

pub set_int-Same :
    (m : IntMember) (v : ℤ) (c : ServerConfig)
    → is_net_buffer_size m ≡ false
    → Same c (set_int m v c)
unfolding set_int
set_int-Same the_net_buffer_size v c h = absurd (ground (arith, h))
set_int-Same the_stat_cache_duration v c h = untouched refl refl refl refl refl
set_int-Same the_max_conn v c h = untouched refl refl refl refl refl
set_int-Same the_keep_alive_max v c h = untouched refl refl refl refl refl
set_int-Same the_timeout_cull_frequency v c h = untouched refl refl refl refl refl
set_int-Same the_timeout_total_lifetime v c h = untouched refl refl refl refl refl
set_int-Same the_timeout_idle_lifetime v c h = untouched refl refl refl refl refl
set_int-Same the_max_post_body v c h = untouched refl refl refl refl refl
set_int-Same the_maximum_dynamic_processes v c h = untouched refl refl refl refl refl

pub set_bool-Same : (m : BoolMember) (v : Bool) (c : ServerConfig) → Same c (set_bool m v c)
unfolding set_bool
set_bool-Same the_follow_sym_links v c = untouched refl refl refl refl refl
set_bool-Same the_no_atime v c = untouched refl refl refl refl refl

pub Same-trans : {c d e : ServerConfig} → Same c d → Same d e → Same c e
Same-trans p q = record {
  doc_root = q.doc_root ∙ p.doc_root;
  soft_limit = q.soft_limit ∙ p.soft_limit;
  net_buffer_size = q.net_buffer_size ∙ p.net_buffer_size;
  log_level = q.log_level ∙ p.log_level;
  debugging = q.debugging ∙ p.debugging;
}
