-- ===== src/Bits/Tests.antt =====
-- The first allocations of a new mask.
use hottpd.Base.{◌≡◌, refl, true, some, arith}
use hottpd.Bits.{one_hot, constructed, DynamicBitmask, allocate, deallocate, toggle, get}
use hottpd.Bits.Allocation.{WellFormed, Allocates, allocate-Grants}

constructed-WellFormed : WellFormed constructed
constructed-WellFormed = record {
  same_size = refl;
  bytes = (refl, (refl, (refl, (refl, tt))));
  free_bytes = (refl, (refl, (refl, (refl, tt))));
  small = omega arith;
}

allocate-Grants_example : Allocates constructed (allocate constructed)
allocate-Grants_example = allocate-Grants constructed constructed-WellFormed

abbrev once : DynamicBitmask
unfolding allocate
once = (allocate constructed).1

second : (allocate once).0 ≡ some (0, one_hot 8 1)
unfolding once allocate
second = refl

again : (allocate (deallocate (0, one_hot 8 0) once).1).0 ≡ some (0, one_hot 8 0)
unfolding once allocate deallocate
again = refl

set : get (0, one_hot 8 1) (toggle (0, one_hot 8 1) true once) ≡ some true
unfolding once get toggle
set = refl
