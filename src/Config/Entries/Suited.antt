-- ===== src/Config/Entries/Suited.antt =====
-- The table of `ServerConfig::Read` (src/configreader.cpp) is typed.
use hottpd.Base.{◌≡◌, ◌≤◌, refl, ap, true, false, [], Bytes, length, arith, Bool-cases, inl, inr}
use hottpd.Config.Settings.{ServerConfig}
use hottpd.Config.Validators.{
  Directories, Validated, answered, threw, Validator, no_validation, validate_log_level,
  validate_dir, dir_valid,
}
use hottpd.Config.Entries.{InitialConfig, Build}
use hottpd.Config.Entries.Typed.{suits, holds_text, KeepsShort, IsTyped, AllTyped, ◌also◌, all_done}
use hottpd.Config.Table.{values}

module _ {World : Type 0} (build : Build) (small : build.max_buf ≤ 1024)
    (sys : Directories World) where
  abbrev item_of : Validated World → Bytes
  item_of (threw error w) = []
  item_of (answered valid item conf w) = item

  -- No item gets longer.
  abbrev Shrinks : Validator World → Type 0
  Shrinks v =
      (conf : ServerConfig) (tag item : Bytes) (w : World)
      → length (item_of (v conf tag item w)) ≤ length item

  Shrinks-KeepsShort : (v : Validator World) → Shrinks v → KeepsShort build small v
  Shrinks-KeepsShort v h conf conf' tag item item' w w' valid is room =
      let same : length (item_of (v conf tag item w)) ≡ length item' =
        ap (λ a. length (item_of a)) is in
      omega (arith, same, h conf tag item w, room)

  idle : Shrinks no_validation
  unfolding no_validation
  idle conf tag item w = omega arith

  level : Shrinks validate_log_level
  unfolding validate_log_level
  level conf tag item w = omega arith

  directory : Shrinks (validate_dir sys)
  unfolding validate_dir
  directory conf tag item w = elim (Bool-cases (dir_valid sys item w).0) [
    | inl e ↦ rw (e) (omega arith)
    | inr e ↦ rw (e) (omega arith)
  ]

  text :
      {e : InitialConfig World}
      → suits e.datatype.kind e.val ≡ true
      → Shrinks e.validation_function
      → IsTyped build small e
  text suited h = record { suited = suited; short = λ _. Shrinks-KeepsShort _ h }

  number :
      {e : InitialConfig World}
      → suits e.datatype.kind e.val ≡ true
      → holds_text e.val ≡ false
      → IsTyped build small e
  number suited none_held = record {
    suited = suited;
    short = λ held. absurd (ground (arith, none_held, held));
  }

  pub values-AllTyped : AllTyped build small (values build sys)
  values-AllTyped =
      text refl directory
      also number refl refl
      also text refl level
      also number refl refl
      also text refl idle
      also text refl idle
      also text refl idle
      also number refl refl
      also text refl idle
      also text refl idle
      also text refl idle
      also number refl refl
      also number refl refl
      also number refl refl
      also number refl refl
      also number refl refl
      also number refl refl
      also number refl refl
      also number refl refl
      also number refl refl
      also all_done
