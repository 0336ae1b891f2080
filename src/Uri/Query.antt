-- ===== src/Uri/Query.antt =====
-- The loop leaves `uriquery` as it was, or sets it to what follows the question mark.
use hottpd.Base.{
  ℕ, ◌≡◌, inl, inr, refl, ap, ◌∙◌, Bool, false, [], ◌∷◌, ◌==◌, if◌then◌else◌, Bytes, arith,
  Bool-cases,
}
use hottpd.Uri.{State, stops, separate, consume, decoded, scan, with_query}
use hottpd.Uri.Walk.{query_of}

consume-query : (c : ℕ) (s : State) → (consume c s).query ≡ s.query
unfolding consume separate
consume-query c s = ground arith

decoded-query : (a b : ℕ) (s : State) → (decoded a b s).query ≡ s.query
unfolding decoded consume separate
decoded-query a b s = ground arith

separate-query : (more : Bool) (s : State) → (separate more s).query ≡ s.query
unfolding separate
separate-query more s = refl

with_query-query :
    (c : ℕ) (rest : Bytes) (s : State)
    → (separate false (with_query c rest s)).query ≡ (if c == b'?' then rest else s.query)
unfolding separate
with_query-query c rest s = ground arith

-- One plain byte in front of a text that the lemma holds of.
scan-query_step :
    (c : ℕ) (rest query : Bytes) (s q : State)
    → q.query ≡ query
    → (if stops c then separate false (with_query c rest s) else q).query
      ≡ (if stops c then if c == b'?' then rest else s.query else query)
scan-query_step c rest query s q h = elim (Bool-cases (stops c)) [
  | inl e ↦ rw e (with_query-query c rest s)
  | inr e ↦ rw e h
]

pub scan-query : (raw : Bytes) (s : State) → (scan raw s).query ≡ query_of raw s.query
unfolding scan query_of
scan-query [] s = separate-query false s
scan-query (c ∷ []) s = elim (Bool-cases (c == b'%')) [
  | inl e ↦ rw e (separate-query false s)
  | inr e ↦
      rw e (scan-query_step c [] _ s _ (separate-query false (consume c s) ∙ consume-query c s))
]
scan-query (c ∷ a ∷ []) s = elim (Bool-cases (c == b'%')) [
  | inl e ↦ rw e (separate-query false s)
  | inr e ↦ rw e (
      scan-query_step c (a ∷ []) _ s _
        (scan-query (a ∷ []) (consume c s) ∙ ap (query_of (a ∷ [])) (consume-query c s)))
]
scan-query (c ∷ a ∷ b ∷ rest) s = elim (Bool-cases (c == b'%')) [
  | inl e ↦ rw e (scan-query rest (decoded a b s) ∙ ap (query_of rest) (decoded-query a b s))
  | inr e ↦ rw e (
      scan-query_step c (a ∷ b ∷ rest) _ s _ (
        scan-query (a ∷ b ∷ rest) (consume c s) ∙ ap (query_of (a ∷ b ∷ rest)) (consume-query c s)))
]
