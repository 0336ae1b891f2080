-- ===== src/Modules/Interfaces.antt =====
-- src/modules.cpp: the interfaces that modules publish (`PublishInterface`, `UnpublishInterface`,
-- `FindInterface`, `UseInterface`, `DoneWithInterface`, `GetInterfaceInstanceCount`), in a map from
-- names to the number of uses and the modules. The map is ordered by name, as `std::map` iterates.
use hottpd.Base.{
  ℕ, ◌≡◌, refl, sym, ◌∙◌, Bool, true, false, Option, none, some, List, [], ◌∷◌, ◌++◌, ◌==◌, ltb,
  if◌then◌else◌, is_empty, Bytes, eq_bytes, eq_bytes_iff, eq_bytes_refl, arith, Bool-cases,
  Option-cases, inl, inr, ℤ, pos, increment, decrement, decrement-increment,
}
use hottpd.Modules.{Handlers, position, erase_at}

pub record Interface : Type 0 where
  pub uses : ℤ
  pub providers : Handlers

abbrev pub Interfaces : Type 0
Interfaces = List (Bytes × Interface)

-- `std::string::operator<`
unfoldable pub precedes : Bytes → Bytes → Bool
precedes a [] = false
precedes [] (d ∷ b) = true
precedes (c ∷ a) (d ∷ b) =
    let rest = precedes a b in if ltb c d then true else if c == d then rest else false

unfoldable pub find_interface_entry : Bytes → Interfaces → Option Interface
unfolding eq_bytes
find_interface_entry name [] = none
find_interface_entry name ((k, v) ∷ rest) =
    if eq_bytes k name then some v else find_interface_entry name rest

-- `Interfaces[name] = v`
unfoldable pub put : Bytes → Interface → Interfaces → Interfaces
unfolding precedes eq_bytes
put name v [] = (name, v) ∷ []
put name v ((k, w) ∷ rest) =
    let onward = put name v rest in
    if eq_bytes k name
    then (k, v) ∷ rest
    else if precedes name k
    then (name, v) ∷ (k, w) ∷ rest
    else (k, w) ∷ onward

unfoldable pub erase_interface : Bytes → Interfaces → Interfaces
unfolding eq_bytes
erase_interface name [] = []
erase_interface name ((k, v) ∷ rest) =
    let onward = erase_interface name rest in if eq_bytes k name then rest else (k, v) ∷ onward

unfoldable pub publish_interface : Bytes → ℕ → Interfaces → Bool × Interfaces
unfolding find_interface_entry put
publish_interface name m interfaces = elim (find_interface_entry name interfaces) [
  | none ↦ (true, put name (record { uses = pos 0; providers = m ∷ [] }) interfaces)
  | some i ↦ (true, put name (record i { providers = i.providers ++ m ∷ [] }) interfaces)
]

unfoldable pub unpublish_interface : Bytes → ℕ → Interfaces → Bool × Interfaces
unfolding find_interface_entry put erase_interface position erase_at
unpublish_interface name m interfaces = elim (find_interface_entry name interfaces) [
  | none ↦ (false, interfaces)
  | some i ↦ elim (position m i.providers) [
    | none ↦ (false, interfaces)
    | some x ↦
        let left = erase_at x i.providers in
        (
          true,
          if is_empty left
              then erase_interface name interfaces
              else put name (record i { providers = left }) interfaces,
        )
  ]
]

unfoldable pub find_interface : Bytes → Interfaces → Option Handlers
unfolding find_interface_entry
find_interface name interfaces = elim (find_interface_entry name interfaces) [
  | none ↦ none
  | some i ↦ some i.providers
]

unfoldable pub use_interface : Bytes → Interfaces → Interfaces
unfolding find_interface_entry put increment
use_interface name interfaces = elim (find_interface_entry name interfaces) [
  | none ↦ interfaces
  | some i ↦ put name (record i { uses = increment i.uses }) interfaces
]

unfoldable pub done_with_interface : Bytes → Interfaces → Interfaces
unfolding find_interface_entry put decrement
done_with_interface name interfaces = elim (find_interface_entry name interfaces) [
  | none ↦ interfaces
  | some i ↦ put name (record i { uses = decrement i.uses }) interfaces
]

-- The uses of the first interface that lists the module, and its name.
unfoldable pub interface_instance_count : ℕ → Interfaces → ℤ × Bytes
unfolding position
interface_instance_count m [] = (pos 0, [])
interface_instance_count m ((k, i) ∷ rest) = elim (position m i.providers) [
  | none ↦ interface_instance_count m rest
  | some _ ↦ (i.uses, k)
]

pub find-put :
    (name other : Bytes) (v : Interface) (interfaces : Interfaces)
    → find_interface_entry other (put name v interfaces)
      ≡ (if eq_bytes name other then some v else find_interface_entry other interfaces)
unfolding find_interface_entry put
find-put name other v [] = refl
find-put name other v ((k, w) ∷ rest) = elim (Bool-cases (eq_bytes k name)) [
  | inl e ↦
      let same : k ≡ name = (eq_bytes_iff k name).0 e in
      rw (put, e, find_interface_entry, sym same) (ground (arith, eq_bytes_iff k other))
  | inr e ↦ ground (
    arith,
    e,
    find-put name other v rest,
    eq_bytes_iff k other,
    eq_bytes_iff name other,
    eq_bytes_iff k name,
  )
]

put-put :
    (name : Bytes) (v w : Interface) (interfaces : Interfaces)
    → put name w (put name v interfaces) ≡ put name w interfaces
unfolding put
put-put name v w [] = rw (put, eq_bytes_refl name) refl
put-put name v w ((k, x) ∷ rest) = ground (arith, put-put name v w rest, eq_bytes_refl name)

find-erase :
    (name other : Bytes) (interfaces : Interfaces)
    → eq_bytes name other ≡ false
    → find_interface_entry other (erase_interface name interfaces)
      ≡ find_interface_entry other interfaces
unfolding find_interface_entry erase_interface
find-erase name other [] h = refl
find-erase name other ((k, w) ∷ rest) h = ground (
  arith,
  find-erase name other rest,
  h,
  eq_bytes_iff k other,
  eq_bytes_iff name other,
  eq_bytes_iff k name,
)

-- `UseInterface` and then `DoneWithInterface` leave each interface with the uses and the modules that
-- it had.
pub done_with_interface-use_interface :
    (name other : Bytes) (interfaces : Interfaces)
    → find_interface_entry other (done_with_interface name (use_interface name interfaces))
      ≡ find_interface_entry other interfaces
unfolding use_interface done_with_interface
done_with_interface-use_interface name other interfaces =
    elim (Option-cases (find_interface_entry name interfaces)) [
      | inl absent ↦
          let unused : use_interface name interfaces ≡ interfaces =
            rw (use_interface, absent) refl in
          let undone : done_with_interface name interfaces ≡ interfaces =
            rw (done_with_interface, absent) refl in
          rw (unused, undone) refl
      | inr (i, present) ↦
          let v : Interface = record i { uses = increment i.uses } in
          let used : find_interface_entry name (put name v interfaces) ≡ some v =
            find-put name name v interfaces ∙ rw (eq_bytes_refl name) refl in
          let back : done_with_interface name (put name v interfaces) ≡ put name i interfaces =
            rw (done_with_interface, used, decrement-increment i.uses)
              (put-put name v i interfaces) in
          rw (use_interface, present, back, find-put name other i interfaces)
            (ground (arith, present, eq_bytes_iff name other))
    ]
