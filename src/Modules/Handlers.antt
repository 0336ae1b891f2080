-- ===== src/Modules/Handlers.antt =====
-- `Attach` and `Detach` (src/modules.cpp) on the handlers of an event.
use hottpd.Base.{
  ℕ, zero, suc, ◌+◌, ◌-◌, ◌≡◌, refl, none, some, [], ◌∷◌, ◌++◌, ◌==◌, if◌then◌else◌, arith,
  Bool-cases, Option-cases, inl, inr, ap, ◌∙◌,
}
use hottpd.Modules.{Handlers, position, attach, erase_at, detach}

-- How often a module stands in a vector.
abbrev pub occurrences : ℕ → Handlers → ℕ
occurrences who [] = 0
occurrences who (m ∷ handlers) =
    if m == who then suc (occurrences who handlers) else occurrences who handlers

occurrences-append :
    (who : ℕ) (xs ys : Handlers)
    → occurrences who (xs ++ ys) ≡ occurrences who xs + occurrences who ys
occurrences-append who [] ys = omega arith
occurrences-append who (m ∷ xs) ys = ground (arith, occurrences-append who xs ys)

position-none :
    (who : ℕ) (handlers : Handlers) → position who handlers ≡ none → occurrences who handlers ≡ 0
unfolding position
position-none who [] h = refl
position-none who (m ∷ handlers) h = ground (arith, position-none who handlers)

position-some :
    (who x : ℕ) (handlers : Handlers)
    → position who handlers ≡ some x
    → (n : ℕ) × (occurrences who handlers ≡ suc n)
unfolding position
position-some who x [] h = ground arith
position-some who x (m ∷ handlers) h = elim (Bool-cases (m == who)) [
  | inl e ↦ (occurrences who handlers, ground arith)
  | inr e ↦ elim (Option-cases (position who handlers)) [
    | inl absent ↦ ground (arith, absent)
    | inr (y, here) ↦
        let (n, counted) = position-some who y handlers here in (n, ground (arith, counted))
  ]
]

-- `Attach` adds a module once, and adds and removes no other: afterwards the module stands in the
-- vector as often as before, if it did, and else once.
pub occurrences-attach :
    (who other : ℕ) (handlers : Handlers)
    → occurrences other (attach who handlers).1
      ≡ occurrences other handlers + (if who == other then 1 - occurrences who handlers else 0)
unfolding attach
occurrences-attach who other handlers = elim (Option-cases (position who handlers)) [
  | inl absent ↦
      rw (attach, absent)
        (ground
          (arith, occurrences-append other handlers (who ∷ []), position-none who handlers absent))
  | inr (x, here) ↦
      let (n, counted) = position-some who x handlers here in
      rw (attach, here) (ground (arith, counted))
]

occurrences-erase_at :
    (who other x : ℕ) (handlers : Handlers)
    → position who handlers ≡ some x
    → occurrences other (erase_at x handlers)
      ≡ occurrences other handlers - (if who == other then 1 else 0)
unfolding erase_at position
occurrences-erase_at who other x [] h = ground arith
occurrences-erase_at who other zero (m ∷ handlers) h = elim (Option-cases (position who handlers)) [
  | inl absent ↦ ground (arith, absent)
  | inr (y, here) ↦ ground (arith, here)
]
occurrences-erase_at who other (suc x) (m ∷ handlers) h =
    elim (Option-cases (position who handlers)) [
      | inl absent ↦ ground (arith, absent)
      | inr (y, here) ↦
          let there : y ≡ x = ground (arith, here) in
          let moved : position who handlers ≡ some x = here ∙ ap some there in
          let ih : occurrences other (erase_at x handlers)
              ≡ occurrences other handlers - (if who == other then 1 else 0) =
            occurrences-erase_at who other x handlers moved in
          let (n, counted) = position-some who x handlers moved in ground (arith, ih, counted)
    ]

-- `Detach` removes a module once, if it is there, and changes nothing else.
pub occurrences-detach :
    (who other : ℕ) (handlers : Handlers)
    → occurrences other (detach who handlers).1
      ≡ occurrences other handlers - (if who == other then 1 else 0)
unfolding detach
occurrences-detach who other handlers = elim (Option-cases (position who handlers)) [
  | inl absent ↦ rw (detach, absent) (ground (arith, position-none who handlers absent))
  | inr (x, here) ↦ rw (detach, here) (occurrences-erase_at who other x handlers here)
]
