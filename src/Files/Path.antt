-- ===== src/Files/Path.antt =====
-- The names that `CheckFilePath` (src/filesystem.cpp) serves.
use hottpd.Base.{
  ℕ, Bool, true, [], ◌∷◌, ◌++◌, append-nil, append_assoc, ◌≡◌, ◌⊎◌, inl, inr, refl, sym, ap, ◌∙◌,
  ◌==◌, Bytes, arith, Bool-cases, ==_iff,
}
use hottpd.Files.{
  StatAnswer, StatBuf, found, failed, StatConfig, PathAnswer, serve, refuse, Mode, regular,
  directory, special, without_slash, stat, Fs, climb, check_file_path, at_end, at_slash,
}

Mode-cases : (m : Mode) → (m ≡ regular) ⊎ (m ≡ directory) ⊎ (m ≡ special)
Mode-cases directory = inr (inl refl)
Mode-cases regular = inl refl
Mode-cases special = inr (inr refl)

-- A text that is empty or begins with a slash.
abbrev pub Boundary : Bytes → Type 0
Boundary [] = Unit
Boundary (c ∷ _) = c ≡ b'/'

module _ {World : Type 0} (ask : World → Bool → Bytes → StatAnswer × World) (conf : StatConfig)
    (start : Fs ask) where
  -- The states of the caches and the world that come about, from `start` on, as `stat` is called for
  -- beginnings of `name`.
  pub data Reached (name : Bytes) : Fs ask → Type 0 where
    begins : Reached name start
    asked :
        {fs : Fs ask} (now : Fs ask) (path more : Bytes)
        → Reached name fs
        → name ≡ path ++ more
        → now ≡ (stat ask conf conf.follow_sym_links true path fs).1
        → Reached name now

  Reached-more :
      (name : Bytes) {fs : Fs ask} (more : Bytes) → Reached name fs → Reached (name ++ more) fs
  Reached-more name more begins = begins
  Reached-more name more (asked now path after r split e) =
      asked now path (after ++ more) (Reached-more name more r)
        (ap (λ x. x ++ more) split ∙ append_assoc path after more) e

  -- `stat` said, where it had been called just for beginnings of `path` before, that `path` is of this
  -- mode.
  pub record Saw (path : Bytes) (mode : Mode) (st : StatBuf) : Type 0 where
    pub state : Fs ask
    pub reached : Reached path state
    pub answered : (stat ask conf conf.follow_sym_links true path state).0 ≡ found st
    pub is_mode : st.mode ≡ mode

  -- An answer about the path `before ++ rest`.
  abbrev pub Sound : Bytes → Bytes → PathAnswer → Type 0
  Sound before rest (refuse e) = Unit
  Sound before rest (serve path st) =
      (pre : Bytes) × (post : Bytes) × (rest ≡ pre ++ post)
      × (path ≡ before ++ pre)
      × Boundary post
      × Saw path regular st

  Sound-cons :
      (c : ℕ) (before rest : Bytes) (answer : PathAnswer)
      → Sound (before ++ c ∷ []) rest answer
      → Sound before (c ∷ rest) answer
  Sound-cons c before rest (refuse e) h = tt
  Sound-cons c before rest (serve path st) (pre, post, split, named, bound, saw) =
      (c ∷ pre, post, ap (◌∷◌ c) split, named ∙ append_assoc before (c ∷ []) pre, bound, saw)

  at_end-Sound :
      (path : Bytes) (answer : StatAnswer) (fs : Fs ask)
      → Reached path fs
      → (stat ask conf conf.follow_sym_links true path fs).0 ≡ answer
      → Sound path [] (at_end path answer)
  unfolding at_end
  at_end-Sound path (failed e) fs r h = tt
  at_end-Sound path (found st) fs r h = elim (Mode-cases st.mode) [
    | inl e ↦ rw e (
      [],
      [],
      refl,
      sym (append-nil path),
      tt,
      record { state = fs; reached = r; answered = h; is_mode = e },
    )
    | inr e ↦ ground (arith, e)
  ]

  at_slash-Sound :
      (path rest : Bytes) (answer : StatAnswer) (fs fs' : Fs ask) (onward : PathAnswer × Fs ask)
      → Reached path fs
      → (stat ask conf conf.follow_sym_links true path fs).0 ≡ answer
      → Boundary rest
      → Sound path rest onward.0
      → Sound path rest (at_slash path answer fs' onward).0
  unfolding at_slash
  at_slash-Sound path rest (failed e) fs fs' onward r h bound ih = tt
  at_slash-Sound path rest (found st) fs fs' onward r h bound ih = elim (Mode-cases st.mode) [
    | inl e ↦ simp e (
      [],
      rest,
      refl,
      sym (append-nil path),
      bound,
      record { state = fs; reached = r; answered = h; is_mode = e },
    )
    | inr (inl e) ↦ simp e ih
    | inr (inr e) ↦ simp e tt
  ]

  climb-Sound :
      (rest before : Bytes) (fs : Fs ask)
      → Reached before fs
      → Sound before rest (climb ask conf before rest fs).0
  unfolding climb
  climb-Sound [] before fs r = at_end-Sound before _ fs r refl
  climb-Sound (c ∷ rest) before fs r = elim (Bool-cases (c == b'/')) [
    | inl e ↦
        let fs' = (stat ask conf conf.follow_sym_links true before fs).1 in
        let next : Reached before fs' = asked fs' before [] r (sym (append-nil before)) refl in
        rw e (
          at_slash-Sound before (c ∷ rest) _ fs fs' _ r refl ((==_iff c b'/').0 e) (
            Sound-cons c before rest _
              (climb-Sound rest (before ++ c ∷ []) fs' (Reached-more before (c ∷ []) next))))
    | inr e ↦ rw e (
        Sound-cons c before rest _
          (climb-Sound rest (before ++ c ∷ []) fs (Reached-more before (c ∷ []) r)))
  ]

  -- For a path that is not empty: what `CheckFilePath` serves is the document root, less a slash at
  -- its end, followed by a beginning of the path, which is not empty and ends where the path ends or
  -- before a slash; and `stat`, which in this call had asked before just for beginnings of that name,
  -- answered for that name that it is a regular file.
  pub check_file_path-Sound :
      (basedir : Bytes) (c : ℕ) (path : Bytes)
      → Sound
          (without_slash basedir ++ c ∷ [])
          path
          (check_file_path ask conf basedir (c ∷ path) start).0
  unfolding check_file_path
  check_file_path-Sound basedir c path =
      climb-Sound path (without_slash basedir ++ c ∷ []) start begins
