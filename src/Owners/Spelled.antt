-- ===== src/Owners/Spelled.antt =====
-- Which pieces a CODEOWNERS pattern is written with, byte by byte, and that the loop of
-- `codeownersPatternMatches` in internal/graph/codeowners.go finds them.
use repo_karta.Common.Text.{Text, has_prefix}
use repo_karta.Common.{
  ℕ, true, false, ◌&&◌, Option, none, some, List, [], ◌∷◌, ltb, ◌==◌, ◌≡◌, ◌∙◌, refl, sym, ap,
  subst, Bool-cases, inl, inr, ==_iff, arith,
}
use repo_karta.Owners.Patterns.{
  Piece, any_run, segment_run, one, literal, cons_piece, piece_of, pieces,
}

-- A text is written with pieces: two stars, a star that no star follows, a question mark, or another
-- ASCII byte.
unfoldable pub Spells : List Piece → Text → Type 0
Spells [] t = t ≡ []
Spells (any_run ∷ ps) t = (rest : Text) × (t ≡ b'*' ∷ b'*' ∷ rest) × Spells ps rest
Spells (segment_run ∷ ps) t =
    (rest : Text) × (t ≡ b'*' ∷ rest) × (has_prefix rest (b'*' ∷ []) ≡ false) × Spells ps rest
Spells (one ∷ ps) t = (rest : Text) × (t ≡ b'?' ∷ rest) × Spells ps rest
Spells (literal c ∷ ps) t =
    (rest : Text) × (t ≡ c ∷ rest)
    × ((c == b'*') ≡ false)
    × ((c == b'?') ≡ false)
    × (ltb c 0x80 ≡ true)
    × Spells ps rest

-- Where no two stars begin a text, its first byte is a piece.
pieces-cons :
    (c : ℕ) (rest : Text)
    → (c == b'*' && has_prefix rest (b'*' ∷ [])) ≡ false
    → pieces (c ∷ rest) ≡ cons_piece (piece_of c) (pieces rest)
unfolding pieces has_prefix
pieces-cons c [] h = refl
pieces-cons c (d ∷ s) h =
    let e : (c == b'*' && d == b'*') ≡ false = ground arith in rw (e, pieces) refl

pieces-nil : pieces [] ≡ some []
unfolding pieces
pieces-nil = refl

pieces-stars : (rest : Text) → pieces (b'*' ∷ b'*' ∷ rest) ≡ cons_piece (some any_run) (pieces rest)
unfolding pieces
pieces-stars rest = refl

pub Spells-pieces : (ps : List Piece) (t : Text) → Spells ps t → pieces t ≡ some ps
unfolding Spells
Spells-pieces [] t e = rw e pieces-nil
Spells-pieces (any_run ∷ ps) t (rest, e, h) =
    rw (e, pieces-stars rest, Spells-pieces ps rest h) (unfold cons_piece in refl)
Spells-pieces (segment_run ∷ ps) t (rest, e, n, h) =
    rw (e, pieces-cons b'*' rest (unfold piece_of in ground arith), Spells-pieces ps rest h)
      (unfold piece_of cons_piece in refl)
Spells-pieces (one ∷ ps) t (rest, e, h) =
    rw (e, pieces-cons b'?' rest refl, Spells-pieces ps rest h) (unfold piece_of cons_piece in refl)
Spells-pieces (literal c ∷ ps) t (rest, e, star, mark, ascii, h) =
    rw (e, pieces-cons c rest (ground arith), Spells-pieces ps rest h)
      (unfold piece_of cons_piece in rw (star, mark, ascii) refl)

-- What a successful step is made of.
cons_piece-some :
    (p : Option Piece) (o : Option (List Piece)) (ps : List Piece)
    → cons_piece p o ≡ some ps
    → (q : Piece) × (qs : List Piece) × (p ≡ some q) × (o ≡ some qs) × (ps ≡ q ∷ qs)
unfolding cons_piece
cons_piece-some none o ps h = absurd cc
cons_piece-some (some q) none ps h = absurd cc
cons_piece-some (some q) (some qs) ps h = (q, qs, refl, refl, cc)

piece_of-Spells :
    (c : ℕ) (rest : Text) (q : Piece) (qs : List Piece)
    → (c == b'*' && has_prefix rest (b'*' ∷ [])) ≡ false
    → piece_of c ≡ some q
    → Spells qs rest
    → Spells (q ∷ qs) (c ∷ rest)
unfolding piece_of
piece_of-Spells c rest q qs n h k = elim (Bool-cases (c == b'*')) [
  | inl e ↦
      let f : some segment_run ≡ some q = rw e at h in
      let g : segment_run ≡ q = cc in
      subst (λ r. Spells (r ∷ qs) (c ∷ rest)) g
        (unfold Spells in (rest, ap (λ b. b ∷ rest) ((==_iff c b'*').0 e), ground arith, k))
  | inr star ↦ elim (Bool-cases (c == b'?')) [
    | inl e ↦
        let f : some one ≡ some q = rw (star, e) at h in
        let g : one ≡ q = cc in
        subst (λ r. Spells (r ∷ qs) (c ∷ rest)) g
          (unfold Spells in (rest, ap (λ b. b ∷ rest) ((==_iff c b'?').0 e), k))
    | inr mark ↦ elim (Bool-cases (ltb c 0x80)) [
      | inl ascii ↦
          let f : some (literal c) ≡ some q = rw (star, mark, ascii) at h in
          let g : literal c ≡ q = cc in
          subst (λ r. Spells (r ∷ qs) (c ∷ rest)) g
            (unfold Spells in (rest, refl, star, mark, ascii, k))
      | inr wide ↦ absurd (let f : none ≡ some q = rw (star, mark, wide) at h in cc)
    ]
  ]
]

pub pieces-Spells : (t : Text) (ps : List Piece) → pieces t ≡ some ps → Spells ps t
unfolding Spells
pieces-Spells [] ps h =
    let f : some [] ≡ some ps = sym pieces-nil ∙ h in
    let g : [] ≡ ps = cc in subst (λ r. Spells r []) g refl
pieces-Spells (c ∷ []) ps h =
    let n : (c == b'*' && has_prefix [] (b'*' ∷ [])) ≡ false = unfold has_prefix in ground arith in
    let (q, qs, e, f, g) =
      cons_piece-some (piece_of c) (pieces []) ps (sym (pieces-cons c [] n) ∙ h) in
    subst (λ r. Spells r (c ∷ [])) (sym g) (piece_of-Spells c [] q qs n e (pieces-Spells [] qs f))
pieces-Spells (c ∷ d ∷ s) ps h = elim (Bool-cases (c == b'*' && d == b'*')) [
  | inl e ↦
      let (q, qs, p, f, g) =
        cons_piece-some (some any_run) (pieces s) ps (unfold pieces in rw (e, pieces) at h) in
      let a : any_run ≡ q = cc in
      let stars : (c ∷ d ∷ s) ≡ (b'*' ∷ b'*' ∷ s) =
        let x : c ≡ b'*' = ground arith in let y : d ≡ b'*' = ground arith in cc in
      subst (λ r. Spells r (c ∷ d ∷ s)) (sym g)
        (subst (λ r. Spells (r ∷ qs) (c ∷ d ∷ s)) a (s, stars, pieces-Spells s qs f))
  | inr e ↦
      let n : (c == b'*' && has_prefix (d ∷ s) (b'*' ∷ [])) ≡ false =
        unfold has_prefix in ground arith in
      let (q, qs, p, f, g) =
        cons_piece-some (piece_of c) (pieces (d ∷ s)) ps (sym (pieces-cons c (d ∷ s) n) ∙ h) in
      subst (λ r. Spells r (c ∷ d ∷ s)) (sym g)
        (piece_of-Spells c (d ∷ s) q qs n p (pieces-Spells (d ∷ s) qs f))
]
