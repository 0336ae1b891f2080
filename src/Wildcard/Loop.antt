-- ===== src/Wildcard/Loop.antt =====
-- The second loop of `csmatch` and `match` (src/wildcard.cpp) beside `Matches`.
use hottpd.Base.{
  ℕ, zero, suc, ◌+◌, ◌*◌, ◌≤◌, ◌<◌, Bool, true, false, ◌≡◌, ◌≢◌, ◌↔◌, ◌⊎◌, inl, inr, refl, none,
  some, [], ◌∷◌, ◌==◌, length, Bytes, arith, Bool-cases, ==_iff,
}
use hottpd.Wildcard.{
  Run, done, crash, out_of_fuel, Saved, accepts, only_stars, retry, at_star, loop,
}
use hottpd.Wildcard.Matches.{
  Matches, byte, leave, take, byte_inv, star_inv, star_end, star_idem, star_drop, star_all,
  only_stars_iff,
}

-- The run ends, and its answer to `G` is right.
abbrev pub Decides : Type 0 → Run → Type 0
Decides G (done true) = G
Decides G (done false) = ¬ G
Decides G crash = ⊥
Decides G out_of_fuel = ⊥

pub Decides-iff : (G H : Type 0) (r : Run) → G ↔ H → Decides G r → Decides H r
Decides-iff G H (done true) e d = e.0 d
Decides-iff G H (done false) e d = λ h. d (e.1 h)
Decides-iff G H crash e d = d
Decides-iff G H out_of_fuel e d = d

done-Decides : (G : Type 0) (b : Bool) → (b ≡ true) ↔ G → Decides G (done b)
done-Decides G true e = e.0 refl
done-Decides G false e = λ g. cc (e.1 g)

-- The bytes that a later attempt, or this one, may still skip.
abbrev budget : Saved → Bytes → ℕ
budget none string = length string
budget (some (mp, cp)) string = length cp

mul_mono : (k a b : ℕ) → a ≤ b → a * k ≤ b * k
mul_mono k a b h = grind arith

budget-cons :
    (saved : Saved) (c : ℕ) (string : Bytes) → budget saved string ≤ budget saved (c ∷ string)
budget-cons none c string = omega arith
budget-cons (some (mp, cp)) c string = omega arith

restar :
    {same : ℕ → ℕ → Bool} {v : ℕ} {wild string : Bytes}
    → v ≡ b'*'
    → Matches same (b'*' ∷ wild) string
    → Matches same (v ∷ wild) string
restar e m = rw e m

module _ (same : ℕ → ℕ → Bool) (G : Type 0) (k : ℕ) where
  -- The attempts that are left if this one fails.
  abbrev Later : Saved → Type 0
  Later none = ⊥
  Later (some (mp, cp)) = Matches same (b'*' ∷ mp) cp

  abbrev Sized : Saved → Bytes → Type 0
  Sized none string = Unit
  Sized (some (mp, cp)) string = (length mp < k) × (length string ≤ length cp + 1)

  budget-star :
      (saved : Saved) (c : ℕ) (string : Bytes)
      → Sized saved (c ∷ string)
      → length string ≤ budget saved (c ∷ string)
  budget-star none c string h = omega arith
  budget-star (some (mp, cp)) c string h = omega (arith, h.1)

  -- With nothing saved the next byte of the mask is a star.
  abbrev Armed : Saved → Bytes → Type 0
  Armed (some _) wild = Unit
  Armed none [] = ⊥
  Armed none (w ∷ wild) = w ≡ b'*'

  pub record Inv (wild string : Bytes) (saved : Saved) : Type 0 where
    pub now : Matches same wild string → G
    pub later : Later saved → G
    pub complete : G → Matches same wild string ⊎ Later saved
    pub shift : Later saved → Matches same (b'*' ∷ wild) string
    pub sized : Sized saved string
    pub armed : Armed saved wild
    pub short : length wild < k

  -- What `loop f` proves, for all arguments that its fuel is enough for.
  abbrev Answers : ℕ → Type 0
  Answers f =
      (wild string : Bytes) (saved : Saved)
      → Inv wild string saved
      → budget saved string * k + length wild + 1 < f
      → Decides G (loop same f wild string saved)

  pub loop-end :
      (f : ℕ) (wild : Bytes) (saved : Saved)
      → (Matches same wild [] → G)
      → (G → Matches same wild [] ⊎ Later saved)
      → (Later saved → Matches same (b'*' ∷ wild) [])
      → 0 < f
      → Decides G (loop same f wild [] saved)
  unfolding loop
  loop-end zero wild saved now complete shift lt = absurd (omega arith)
  loop-end (suc f) wild saved now complete shift lt =
      let (sound, total) = only_stars_iff {same = same} wild in
      done-Decides G (only_stars wild) (
        λ h. now (sound h),
        λ g. elim (complete g) [ inl m ↦ total m | inr l ↦ total (star_end refl (shift l)) ],
      )

  retry-Decides :
      (f c : ℕ) (wild string : Bytes) (saved : Saved)
      → Answers f
      → Inv wild (c ∷ string) saved
      → ¬ Matches same wild (c ∷ string)
      → ¬ Armed none wild
      → budget saved (c ∷ string) * k + length wild + 1 < suc f
      → Decides G (retry (loop same f) saved)
  unfolding retry
  retry-Decides f c wild string none ih i n plain lt = absurd (plain i.armed)
  retry-Decides f c wild string (some (mp, [])) ih i n plain lt =
      let fails : ¬ Matches same wild (c ∷ string) = n in
      loop-end f mp (some (mp, [])) (λ m. i.later (leave refl m))
        (λ g. elim (i.complete g) [ inl m ↦ absurd (fails m) | inr l ↦ inr l ]) (λ l. l)
        (omega arith)
  retry-Decides f c wild string (some (mp, x ∷ cp)) ih i n plain lt =
      ih mp (x ∷ cp) (some (mp, cp))
        (record {
          now = λ m. i.later (leave refl m);
          later = λ l. i.later (take refl l);
          complete = λ g. elim (i.complete g) [ inl m ↦ absurd (n m) | inr l ↦ star_inv refl l ];
          shift = λ l. take refl l;
          sized = (i.sized.0, omega arith);
          armed = tt;
          short = i.sized.0;
        })
        (omega (arith, i.sized))

  -- A star opens a fresh attempt, which stands for all that were saved.
  at_star-Decides :
      (f v c : ℕ) (wild string : Bytes) (saved : Saved)
      → v ≡ b'*'
      → Answers f
      → Inv (v ∷ wild) (c ∷ string) saved
      → budget saved (c ∷ string) * k + length wild + 2 < suc f
      → Decides G (at_star (loop same f) wild (c ∷ string) string)
  unfolding at_star
  at_star-Decides f v c [] string saved e ih i lt = i.now (star_all v (c ∷ string) e)
  at_star-Decides f v c (w ∷ wild) string saved e ih i lt =
      ih (w ∷ wild) (c ∷ string) (some (w ∷ wild, string))
        (record {
          now = λ m. i.now (leave e m);
          later = λ l. i.now (take e (restar e l));
          complete = λ g. star_inv refl (elim (i.complete g) [
            | inl m ↦ rw e at m
            | inr l ↦ rw e at (star_idem refl e (i.shift l))
          ]);
          shift = λ l. take refl l;
          sized = (omega (arith, i.short), omega arith);
          armed = tt;
          short = omega (arith, i.short);
        })
        (omega (
          arith,
          mul_mono k (length string) (budget saved (c ∷ string))
              (budget-star saved c string i.sized),
        ))

  byte-Inv :
      (w c : ℕ) (wild string : Bytes) (saved : Saved)
      → Inv (w ∷ wild) (c ∷ string) saved
      → w ≢ b'*'
      → accepts same w c ≡ true
      → Inv wild string saved
  byte-Inv w c wild string none i n a = absurd (n i.armed)
  byte-Inv w c wild string (some (mp, cp)) i n a = record {
    now = λ m. i.now (byte n a m);
    later = i.later;
    complete = λ g. elim (i.complete g) [ inl m ↦ inl (byte_inv n m).1 | inr l ↦ inr l ];
    shift = λ l. star_drop string refl n (i.shift l);
    sized = (i.sized.0, omega (arith, i.sized));
    armed = tt;
    short = omega (arith, i.short);
  }

  pub loop-Decides : (f : ℕ) → Answers f
  unfolding loop
  loop-Decides zero wild string saved i lt = absurd (omega arith)
  loop-Decides (suc f) wild [] saved i lt =
      loop-end (suc f) wild saved i.now i.complete i.shift (omega arith)
  loop-Decides (suc f) [] (c ∷ string) saved i lt =
      retry-Decides f c [] string saved (loop-Decides f) i (λ m. elim m [ ]) (λ a. a) lt
  loop-Decides (suc f) (w ∷ wild) (c ∷ string) saved i lt = elim (Bool-cases (w == b'*')) [
    | inl e ↦ rw e (
        at_star-Decides f w c wild string saved ((==_iff w b'*').0 e) (loop-Decides f) i
          (omega arith))
    | inr e ↦
        let n : w ≢ b'*' = ground arith in
        elim (Bool-cases (accepts same w c)) [
          | inl a ↦
              rw (e, a)
                (loop-Decides f wild string saved (byte-Inv w c wild string saved i n a) (
                  omega (
                    arith,
                    mul_mono k (budget saved string) (budget saved (c ∷ string))
                        (budget-cons saved c string),
                  )))
          | inr a ↦
              rw (e, a)
                (retry-Decides f c (w ∷ wild) string saved (loop-Decides f) i
                  (λ m. cc (byte_inv n m).0) n lt)
        ]
  ]
