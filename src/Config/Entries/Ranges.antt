-- ===== src/Config/Entries/Ranges.antt =====
-- The validators of src/configreader.cpp that put a number right where it is out of range.
use hottpd.Base.{
  ℕ, ◌≡◌, ◌≤◌, ◌<◌, ◌%◌, ◌^◌, refl, true, false, ◌||◌, if◌then◌else◌, Bytes, arith, Bool-cases, inl,
  inr, ℤ, pos, negsuc,
}
use hottpd.Config.Item.{get_integer, int_text}
use hottpd.Config.Item.RoundTrip.{get_integer-int_text}
use hottpd.Config.Settings.{ServerConfig, unsigned}
use hottpd.Config.Validators.{answered, validate_soft_limit, validate_net_buffer_size, below, above}

-- An int in a range.
abbrev pub Within : ℕ → ℕ → ℤ → Type 0
Within low high z = (n : ℕ) × (z ≡ pos n) × (low ≤ n) × (n ≤ high)

-- An int that is put right where it is out of range.
pub corrected-Within :
    (low high usual : ℕ) (item : Bytes)
    → low ≤ usual
    → usual ≤ high
    → usual < 2 ^ 31
    → Within low high (
        get_integer (
          if below (get_integer item) low || above (get_integer item) high
          then int_text (pos usual)
          else item))
corrected-Within low high usual item above_low below_high fits =
    elim (Bool-cases (below (get_integer item) low || above (get_integer item) high)) [
      | inl e ↦ rw e (usual, get_integer-int_text usual fits, above_low, below_high)
      | inr e ↦ rw e (kept (get_integer item) e)
    ]
  where
    kept : (z : ℤ) → (below z low || above z high) ≡ false → Within low high z
    kept (pos n) h = (n, refl, ground (arith, h), ground (arith, h))
    kept (negsuc n) h = absurd (ground (arith, h))

-- The two validators that put a number right.
pub validate_soft_limit-item :
    {World : Type 0} (max_clients : ℕ) (conf : ServerConfig) (tag item : Bytes) (w : World)
    → validate_soft_limit max_clients conf tag item w
      ≡ answered true
          (if below (get_integer item) 1 || above (get_integer item) max_clients
            then int_text (pos max_clients)
            else item)
          conf
          w
unfolding validate_soft_limit
validate_soft_limit-item max_clients conf tag item w =
    elim (Bool-cases (below (get_integer item) 1 || above (get_integer item) max_clients)) [
      | inl e ↦ rw (validate_soft_limit, e) refl
      | inr e ↦ rw (validate_soft_limit, e) refl
    ]

pub validate_net_buffer_size-item :
    {World : Type 0} (conf : ServerConfig) (tag item : Bytes) (w : World)
    → validate_net_buffer_size conf tag item w
      ≡ answered true
          (if below (get_integer item) 1024 || above (get_integer item) 65535
            then int_text (pos 10240)
            else item)
          conf
          w
unfolding validate_net_buffer_size
validate_net_buffer_size-item conf tag item w =
    elim (Bool-cases (below (get_integer item) 1024 || above (get_integer item) 65535)) [
      | inl e ↦ rw (validate_net_buffer_size, e) refl
      | inr e ↦ rw (validate_net_buffer_size, e) refl
    ]

pub unsigned-Within :
    (max_clients : ℕ)
    → max_clients < 2 ^ 31
    → (z : ℤ) → Within 1 max_clients z
    → (1 ≤ unsigned z) × (unsigned z ≤ max_clients)
unfolding unsigned
unsigned-Within max_clients few_clients z (n, is_n, low, high) =
    let same : n % 2 ^ 32 ≡ n = omega (arith, high, few_clients) in
    rw is_n (omega (arith, same, low), omega (arith, same, high))
