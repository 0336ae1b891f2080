-- ===== src/Duration/Tests.antt =====
-- Durations, with units and without.
use hottpd.Base.{◌≡◌, ◌<◌, ◌^◌, refl, none, some, codes, arith}
use hottpd.Duration.{duration}
use hottpd.Duration.Meaning.{meaning, duration-meaning}

an_hour_and_a_half : duration (codes "1h30m5") ≡ some 5405
unfolding duration
an_hour_and_a_half = refl

-- The power of ten after the last digit is beyond `long` too.
too_many_digits : duration (codes "0000000000000000001") ≡ none
unfolding duration
too_many_digits = refl

short_time : meaning 0 (codes "1y2w3D") < 2 ^ 63
unfolding meaning
short_time = omega arith

duration-meaning_example : duration (codes "1y2w3D") ≡ some (meaning 0 (codes "1y2w3D"))
duration-meaning_example =
    duration-meaning (codes "1y2w3D")
      (omega arith, (omega arith, (omega arith, (omega arith, (omega arith, (omega arith, tt))))))
      short_time
