-- ===== src/Duration/Meaning.antt =====
-- What a duration means, and what `InspIRCd::Duration` (src/helperfuncs.cpp) makes of it.
use hottpd.Base.{
  ℕ, ◌+◌, ◌*◌, ◌-◌, [], ◌∷◌, ◌++◌, ◌==◌, if◌then◌else◌, Bytes, ◌≡◌, refl, ap, ◌∙◌, arith,
  Bool-cases, inl, inr, ==_iff, some, Option-cases, zero, suc, ◌≤◌, ◌<◌, ◌^◌,
}
use hottpd.Duration.{
  duration_multi, Count, count, count_all, finish, duration, is_digit, long_max, reversed, initial,
}

-- What a text means, read forwards: each number counts as often as the character after it says, and
-- once if it is the last.
unfoldable pub meaning : ℕ → Bytes → ℕ
unfolding duration_multi
meaning n [] = n
meaning n (c ∷ text) =
    let longer = meaning (n * 10 + (c - b'0')) text in
    let next = meaning 0 text in if is_digit c then longer else n * duration_multi c + next

-- What is still to be read before the text that has been, after a number `n`.
abbrev worth : ℕ → Count → ℕ
worth n s =
    n * s.times * duration_multi s.multiplier + s.total + s.subtotal * duration_multi s.multiplier

count_all-append :
    (xs : Bytes) (c : ℕ) (s t : Count)
    → count_all xs s ≡ some t
    → count_all (xs ++ c ∷ []) s ≡ count c t
unfolding count_all
count_all-append [] c s t h = ground (arith, h)
count_all-append (x ∷ xs) c s t h = elim (Option-cases (count x s)) [
  | inl e ↦ absurd (ground (arith, h, e))
  | inr (u, e) ↦
      let onward : count_all xs u ≡ some t = ground (arith, h, e) in
      rw (count_all, e) (count_all-append xs c u t onward)
]

-- How many digits a text begins with.
abbrev pub digits : Bytes → ℕ
digits [] = 0
digits (c ∷ text) = if is_digit c then suc (digits text) else 0

-- No number in the text has more than 18 digits.
abbrev pub IsShort : Bytes → Type 0
IsShort [] = Unit
IsShort (c ∷ text) = (digits (c ∷ text) ≤ 18) × IsShort text

abbrev ten_to : ℕ → ℕ
ten_to zero = 1
ten_to (suc k) = ten_to k * 10

ten_to-grows : (k d : ℕ) → ten_to k ≤ ten_to (k + d)
ten_to-grows k zero = let same : k + 0 ≡ k = omega arith in omega (arith, ap (λ j. ten_to j) same)
ten_to-grows k (suc d) =
    let same : k + suc d ≡ suc (k + d) = omega arith in
    omega (arith, ap (λ j. ten_to j) same, ten_to-grows k d)

ten_to-bound : (k : ℕ) → k ≤ 18 → ten_to k ≤ 1000000000000000000
ten_to-bound k h =
    let same : k + (18 - k) ≡ 18 = omega (arith, h) in
    omega (arith, ten_to-grows k (18 - k), ap (λ j. ten_to j) same)

meaning-grows : (text : Bytes) (n d : ℕ) → meaning n text ≤ meaning (n + d) text
unfolding meaning
meaning-grows [] n d = omega arith
meaning-grows (c ∷ text) n d = ground (arith, meaning-grows text (n * 10 + (c - b'0')) (d * 10))

-- What is known after a text has been read.
pub record Counted (text : Bytes) (s : Count) : Type 0 where
  pub counts : count_all (reversed text) initial ≡ some s
  pub means : (n : ℕ) → worth n s ≡ meaning n text
  pub tens : s.times ≡ ten_to (digits text)
  pub below : s.subtotal < s.times

digit_room : (d t s : ℕ) → d ≤ 9 → s < t → s + d * t < t * 10
digit_room d t s few below =
    let nine : d + (9 - d) ≡ 9 = omega (arith, few) in omega (arith, below, ap (λ x. x * t) nine)

-- The next character in front.
count-Counted :
    (c : ℕ) (text : Bytes) (s : Count)
    → digits (c ∷ text) ≤ 18
    → meaning 0 text ≤ long_max
    → Counted text s
    → (t : Count) × Counted (c ∷ text) t
unfolding count meaning
count-Counted c text s short fits k = elim (Bool-cases (is_digit c)) [
  | inl e ↦
      let few : digits text ≤ 17 = ground (arith, e, short) in
      let tens : s.times * 10 ≤ 1000000000000000000 =
        omega (arith, k.tens, ten_to-bound (suc (digits text)) (omega arith)) in
      let next : Count = record s {
        subtotal = s.subtotal + (c - b'0') * s.times;
        times = s.times * 10;
      } in
      let low : next.subtotal < next.times =
        digit_room (c - b'0') s.times s.subtotal (ground (arith, e)) k.below in
      let goes : count c s ≡ some next = ground (arith, e, tens, low) in
      (
        next,
        record {
          counts = count_all-append (reversed text) c initial s k.counts ∙ goes;
          means = λ n. ground (arith, e, k.means (n * 10 + (c - b'0')));
          tens = ground (arith, e, k.tens);
          below = low;
        },
      )
  | inr e ↦
      let total : ℕ = s.total + s.subtotal * duration_multi s.multiplier in
      let next : Count = record { multiplier = c; total = total; times = 1; subtotal = 0 } in
      let goes : count c s ≡ some next = ground (arith, e, fits, k.means 0) in
      (
        next,
        record {
          counts = count_all-append (reversed text) c initial s k.counts ∙ goes;
          means = λ n. ground (arith, e, k.means 0);
          tens = ground (arith, e);
          below = omega arith;
        },
      )
]

meaning-fits : (c : ℕ) (text : Bytes) → meaning 0 (c ∷ text) ≤ long_max → meaning 0 text ≤ long_max
unfolding meaning
meaning-fits c text h = ground (arith, h, meaning-grows text 0 (c - b'0'))

reads : (text : Bytes) → IsShort text → meaning 0 text ≤ long_max → (s : Count) × Counted text s
unfolding count_all meaning duration_multi
reads [] short fits =
    (initial, record { counts = refl; means = λ n. ground arith; tens = refl; below = omega arith })
reads (c ∷ text) short fits =
    let before = meaning-fits c text fits in
    let (s, k) = reads text short.1 before in count-Counted c text s short.0 before k

-- Let no number in the text have more than 18 digits, and let what the text means be below 2^63. Then
-- no `long` of `Duration` overflows, and it gives what the text means, read forwards: the sum of its
-- numbers, each as often as the character after it says, if that is a unit, and else once.
pub duration-meaning :
    (text : Bytes) → IsShort text → meaning 0 text < 2 ^ 63 → duration text ≡ some (meaning 0 text)
unfolding duration finish duration_multi
duration-meaning text short fits =
    let (s, k) = reads text short (omega (arith, fits)) in
    let known : worth 0 s ≡ meaning 0 text = k.means 0 in
    let small : meaning 0 text ≤ long_max = omega (arith, fits) in
    let found : duration text ≡ finish s = ground (arith, k.counts) in
    found ∙ elim (Bool-cases (s.multiplier == 0)) [
      | inl z ↦
          let seconds : s.multiplier ≡ 0 = (==_iff s.multiplier 0).0 z in
          let one : duration_multi s.multiplier ≡ 1 = ap (λ x. duration_multi x) seconds in
          let sum : s.total + s.subtotal ≡ meaning 0 text = ground (arith, known, one) in
          rw (finish, z, sum) (ground (arith, small))
      | inr z ↦
          let sum : s.total + s.subtotal * duration_multi s.multiplier ≡ meaning 0 text =
            omega (arith, known) in
          rw (finish, z, sum) (ground (arith, small))
    ]
