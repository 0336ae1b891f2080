-- ===== src/Config/Validators.antt =====
-- The validators of src/configreader.cpp, and `DirValid`.
use hottpd.Base.{
  ℕ, ◌+◌, Bool, true, false, ◌&&◌, ◌||◌, Option, none, some, [], ◌∷◌, ◌==◌, ltb, if◌then◌else◌,
  Bytes, codes, is_empty, eq_bytes, rfind_char, starts_with, take, toupper, ℤ, pos, negsuc,
}
use mathlib.Core.Bool.{not}
use hottpd.Config.Item.{strlcpy, get_integer, int_text}
use hottpd.Config.Settings.{ServerConfig, LogLevel}

-- `CoreException`, with the tag and the value that its text names.
pub data CoreException : Type 0 where
  has_spaces not_an_ip malformed_ipv4 ipv4_not_numeric ipv6_not_hexdecimal malformed_4in6 :
      Bytes → Bytes → CoreException
  too_many_ipv4_fields too_many_ipv6_fields not_a_hostname : Bytes → Bytes → CoreException
  cannot_be_empty not_a_directory more_than_one not_defined : Bytes → CoreException
  failed_to_validate : CoreException

abbrev has_char : ℕ → Bytes → Bool
has_char c [] = false
has_char c (d ∷ p) = d == c || has_char c p

-- The error, if there is one.
unfoldable pub validate_no_spaces : Bytes → Bytes → Bytes → Option CoreException
validate_no_spaces p tag val = if has_char b' ' p then some (has_spaces tag val) else none

-- The loop of `ValidateHostname`: `none` at a space.
unfoldable pub hostname_dots : ℕ → Bytes → Option ℕ
hostname_dots num_dots [] = some num_dots
hostname_dots num_dots (c ∷ p) =
    let rest = hostname_dots (if c == b'.' then num_dots + 1 else num_dots) p in
    if c == b' ' then none else rest

unfoldable pub validate_hostname : Bytes → Bytes → Bytes → Option CoreException
unfolding hostname_dots
validate_hostname [] tag val = none
validate_hostname (c ∷ p) tag val =
    let bad = some (not_a_hostname tag val) in
    if c == b'.' then bad else elim (hostname_dots 0 (c ∷ p)) [
      | none ↦ bad
      | some num_dots ↦ if num_dots == 0 then bad else none
    ]

pub record IpScan : Type 0 where
  pub num_dots : ℕ
  pub num_seps : ℕ
  pub not_numbers : Bool
  pub not_hex : Bool

abbrev pub not_digit : ℕ → Bool
not_digit c = ltb c b'0' || ltb b'9' c

abbrev pub is_wildcard : Bool → ℕ → Bool
is_wildcard wild c = wild && (c == b'*' || c == b'?' || c == b'/')

-- The body of the loop of `ValidateIP`, less the test for a space.
unfoldable pub ip_byte : Bool → ℕ → IpScan → IpScan
unfolding toupper
ip_byte wild c s = if is_wildcard wild c then s else record {
  num_dots = if c == b'.' then s.num_dots + 1 else s.num_dots;
  num_seps = if c == b':' then s.num_seps + 1 else s.num_seps;
  not_numbers = s.not_numbers || not (c == b':') && not (c == b'.') && not_digit c;
  not_hex =
      s.not_hex
      || not (c == b':')
        && not (c == b'.')
        && not_digit c
        && (ltb (toupper c) b'A' || ltb b'F' (toupper c));
}

-- The loop; `none` at a space.
unfoldable pub scan_ip : Bool → Bytes → IpScan → Option IpScan
unfolding ip_byte
scan_ip wild [] s = some s
scan_ip wild (c ∷ p) s =
    let rest = scan_ip wild p (ip_byte wild c s) in
    if not (is_wildcard wild c) && c == b' ' then none else rest

abbrev pub ip_start : IpScan
ip_start = record { num_dots = 0; num_seps = 0; not_numbers = false; not_hex = false }

-- The tests after the loop.
unfoldable pub judge_ip : Bool → Bytes → Bytes → IpScan → Option CoreException
judge_ip wild tag val s =
    if ltb 3 s.num_dots
    then some (too_many_ipv4_fields tag val)
    else if ltb 8 s.num_seps
    then some (too_many_ipv6_fields tag val)
    else if s.num_seps == 0 && ltb s.num_dots 3 && not wild
    then some (malformed_ipv4 tag val)
    else if s.num_seps == 0 && s.num_dots == 3 && s.not_numbers
    then some (ipv4_not_numeric tag val)
    else if not (s.num_seps == 0) && s.not_hex
    then some (ipv6_not_hexdecimal tag val)
    else if not (s.num_seps == 0) && not (s.num_dots == 3) && not (s.num_dots == 0) && not wild
    then some (malformed_4in6 tag val)
    else none

unfoldable pub validate_ip : Bytes → Bytes → Bytes → Bool → Option CoreException
unfolding scan_ip judge_ip
validate_ip [] tag val wild = none
validate_ip (c ∷ p) tag val wild =
    if c == b'.' then some (not_an_ip tag val) else elim (scan_ip wild (c ∷ p) ip_start) [
      | none ↦ some (not_an_ip tag val)
      | some s ↦ judge_ip wild tag val s
    ]

-- The working directory of the process.
pub record Directories (World : Type 0) : Type 0 where
  pub getcwd : World → Option Bytes
  pub chdir : World → Bytes → Bool × World

-- `work` after its loop: what stands before the last slash.
unfoldable pub directory_part : Bytes → Bytes
unfolding rfind_char strlcpy
directory_part name =
    let work = strlcpy name 1024 in elim (rfind_char b'/' work) [ none ↦ [] | some p ↦ take p work ]

unfoldable pub dir_valid : {World : Type 0} → Directories World → Bytes → World → Bool × World
unfolding directory_part starts_with
dir_valid sys name w =
    let work = directory_part name in
    let (moved, there) = sys.chdir w work in
    elim (sys.getcwd w) [
      | none ↦ (false, w)
      | some buffer ↦ if not moved then (false, there) else elim (sys.getcwd there) [
        | none ↦ (false, there)
        | some otherdir ↦
            let (returned, back) = sys.chdir there buffer in
            if not returned then (false, back) else (starts_with work otherdir, back)
      ]
    ]

-- What a validator returns, with the item and the settings that it leaves, or throws.
pub data Validated (World : Type 0) : Type 0 where
  answered : Bool → Bytes → ServerConfig → World → Validated World
  threw : CoreException → World → Validated World

-- Its arguments are the settings, the tag and the item.
abbrev pub Validator : Type 0 → Type 0
Validator World = ServerConfig → Bytes → Bytes → World → Validated World

abbrev pub below : ℤ → ℕ → Bool
below (pos n) m = ltb n m
below (negsuc n) m = true

abbrev pub above : ℤ → ℕ → Bool
above (pos n) m = ltb m n
above (negsuc n) m = false

-- The level of a name; `DEFAULT` for another.
unfoldable pub level_of : Bytes → LogLevel
level_of dbg =
    if eq_bytes dbg (codes "debug")
    then LogLevel.debug
    else if eq_bytes dbg (codes "verbose")
    then LogLevel.verbose
    else if eq_bytes dbg (codes "default")
    then LogLevel.default
    else if eq_bytes dbg (codes "sparse")
    then LogLevel.sparse
    else if eq_bytes dbg (codes "none")
    then LogLevel.none
    else LogLevel.default

abbrev pub is_debug : LogLevel → Bool
is_debug LogLevel.debug = true
is_debug _ = false

module _ {World : Type 0} where
  unfoldable pub no_validation : Validator World
  no_validation conf tag item w = answered true item conf w

  unfoldable pub validate_soft_limit : ℕ → Validator World
  unfolding get_integer int_text
  validate_soft_limit max_clients conf tag item w =
      if below (get_integer item) 1 || above (get_integer item) max_clients
      then answered true (int_text (pos max_clients)) conf w
      else answered true item conf w

  -- It warns only.
  unfoldable pub validate_max_conn : Validator World
  validate_max_conn conf tag item w = answered true item conf w

  unfoldable pub validate_net_buffer_size : Validator World
  unfolding get_integer int_text
  validate_net_buffer_size conf tag item w =
      if below (get_integer item) 1024 || above (get_integer item) 65535
      then answered true (int_text (pos 10240)) conf w
      else answered true item conf w

  unfoldable pub validate_log_level : Validator World
  unfolding level_of
  validate_log_level conf tag item w =
      answered true item
        (record conf { log_level = level_of item; debugging = is_debug (level_of item) }) w

  unfoldable pub validate_not_empty : Validator World
  validate_not_empty conf tag item w =
      if is_empty item then threw (cannot_be_empty tag) w else answered true item conf w

  unfoldable pub validate_dir : Directories World → Validator World
  unfolding dir_valid
  validate_dir sys conf tag item w =
      let (valid, w') = dir_valid sys item w in
      if not valid then threw (not_a_directory tag) w' else answered true item conf w'
