-- ===== src/Wildcard/Matches.antt =====
-- What it means for a text to match a mask, with no search order in it.
use hottpd.Base.{
  ℕ, Bool, true, ◌≡◌, ◌≢◌, ◌↔◌, refl, [], ◌∷◌, ◌==◌, Bytes, Bool-cases, inl, inr, ◌⊎◌, ==_iff,
}
use hottpd.Wildcard.{accepts, only_stars}

module _ (same : ℕ → ℕ → Bool) where
  pub data Matches : Bytes → Bytes → Type 0 where
    empty : Matches [] []
    byte :
        {w c : ℕ} {wild string : Bytes}
        → w ≢ b'*'
        → accepts same w c ≡ true
        → Matches wild string
        → Matches (w ∷ wild) (c ∷ string)
    leave :
        {w : ℕ} {wild string : Bytes} → w ≡ b'*' → Matches wild string → Matches (w ∷ wild) string
    take :
        {w c : ℕ} {wild string : Bytes}
        → w ≡ b'*'
        → Matches (w ∷ wild) string
        → Matches (w ∷ wild) (c ∷ string)

module _ {same : ℕ → ℕ → Bool} where
  pub byte_inv :
      {w c : ℕ} {wild string : Bytes}
      → w ≢ b'*'
      → Matches same (w ∷ wild) (c ∷ string)
      → (accepts same w c ≡ true) × Matches same wild string
  byte_inv n (byte _ a m) = (a, m)
  byte_inv n (leave e m) = absurd (n e)
  byte_inv n (take e m) = absurd (n e)

  -- A star either matches nothing here or takes one byte.
  pub star_inv :
      {w c : ℕ} {wild string : Bytes}
      → w ≡ b'*'
      → Matches same (w ∷ wild) (c ∷ string)
      → Matches same wild (c ∷ string) ⊎ Matches same (w ∷ wild) string
  star_inv e (byte n a m) = absurd (n e)
  star_inv e (leave _ m) = inl m
  star_inv e (take _ m) = inr m

  pub star_end :
      {w : ℕ} {wild : Bytes} → w ≡ b'*' → Matches same (w ∷ wild) [] → Matches same wild []
  star_end e (leave _ m) = m

  pub star_idem :
      {v w : ℕ} {wild string : Bytes}
      → v ≡ b'*'
      → w ≡ b'*'
      → Matches same (v ∷ w ∷ wild) string
      → Matches same (w ∷ wild) string
  star_idem ev ew (byte n a m) = absurd (n ev)
  star_idem ev ew (leave _ m) = m
  star_idem ev ew (take _ m) = take ew (star_idem ev ew m)

  plain_end : {w : ℕ} {wild : Bytes} → w ≢ b'*' → ¬ Matches same (w ∷ wild) []
  plain_end n (leave e m) = n e

  -- Where a star stands before a plain byte, the rest is found one byte further on.
  pub star_drop :
      {v w c : ℕ} {wild : Bytes} (string : Bytes)
      → v ≡ b'*'
      → w ≢ b'*'
      → Matches same (v ∷ w ∷ wild) (c ∷ string)
      → Matches same (v ∷ wild) string
  star_drop string ev nw (byte n a m) = absurd (n ev)
  star_drop string ev nw (leave _ m) = leave ev (byte_inv nw m).1
  star_drop [] ev nw (take _ (leave _ m)) = absurd (plain_end nw m)
  star_drop (d ∷ string) ev nw (take _ m) = take ev (star_drop string ev nw m)

  pub star_all : (w : ℕ) (string : Bytes) → w ≡ b'*' → Matches same (w ∷ []) string
  star_all w [] e = leave e empty
  star_all w (c ∷ string) e = take e (star_all w string e)

  only_stars-Matches : (wild : Bytes) → only_stars wild ≡ true → Matches same wild []
  unfolding only_stars
  only_stars-Matches [] h = empty
  only_stars-Matches (w ∷ wild) h = elim (Bool-cases (w == b'*')) [
    | inl e ↦ leave ((==_iff w b'*').0 e) (only_stars-Matches wild (rw e at h))
    | inr e ↦ cc (rw e at h)
  ]

  Matches-only_stars : {wild : Bytes} → Matches same wild [] → only_stars wild ≡ true
  unfolding only_stars
  Matches-only_stars empty = refl
  Matches-only_stars (leave {w} e m) = rw ((==_iff w b'*').1 e) (Matches-only_stars m)

  pub only_stars_iff : (wild : Bytes) → (only_stars wild ≡ true) ↔ Matches same wild []
  only_stars_iff wild = (only_stars-Matches wild, Matches-only_stars)
