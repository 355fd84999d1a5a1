-- ===== src/Query/Total.antt =====
-- `tokenize` ends on every text, and its words stand in order inside the text.
use repo_karta.Common.Text.{Text, rune, width, byte_length}
use repo_karta.Common.{
  ℕ, zero, suc, ◌+◌, ◌≤◌, ◌<◌, ◌≡◌, ◌≢◌, refl, Bool, true, false, not, ◌&&◌, List, [], ◌∷◌, ◌++◌,
  arith, length, Bool-cases, if_rule, &&_true, inl, inr, ◌==◌,
}
use repo_karta.Query.Token.{
  Result, ok, err, incomplete_escape, unterminated_quote, Token, Reading, keep_word, is_space,
  skip_space, read_word, after_word, word_at, words, tokenize,
}

width_pos : (c : ℕ) → 0 < width c
unfolding width
width_pos c = ground arith

-- A text from `offset` on ends at `total`.
abbrev Ends : ℕ → ℕ → Text → Type 0
Ends total offset s = offset + byte_length s ≡ total

-- After the white space the text is empty, or begins with another rune.
abbrev AtWord : Text → Type 0
AtWord [] = Unit
AtWord (c ∷ s) = is_space (rune c) ≡ false

record Skipped (total offset : ℕ) (n : ℕ) (r : ℕ × Text) : Type 0 where
  ends : Ends total r.0 r.1
  forward : offset ≤ r.0
  shorter : length r.1 ≤ n
  at_word : AtWord r.1

skip_space-Skipped :
    (total offset : ℕ) (s : Text)
    → Ends total offset s
    → Skipped total offset (length s) (skip_space offset s)
unfolding skip_space byte_length
skip_space-Skipped total offset [] h = record {
  ends = h;
  forward = omega arith;
  shorter = omega arith;
  at_word = tt;
}
skip_space-Skipped total offset (c ∷ s) h = elim (Bool-cases (is_space (rune c))) [
  | inl space ↦
      let r = skip_space-Skipped total (offset + width c) s (omega arith) in
      rw space (record {
        ends = r.ends;
        forward = omega (arith, r.forward);
        shorter = omega (arith, r.shorter);
        at_word = r.at_word;
      })
  | inr word ↦
      rw word (record { ends = h; forward = omega arith; shorter = omega arith; at_word = word })
]

-- What the inner loop leaves, from a text of `n` runes at `offset`.
record Left (total offset n : ℕ) (r : Reading) : Type 0 where
  ends : Ends total r.offset r.rest
  forward : offset ≤ r.offset
  shorter : length r.rest ≤ n

-- One rune of the inner loop: it stops at white space, or goes on behind the rune.
read_word_step :
    (P : Reading → Type 0) (value : Text) (q e : Bool) (offset c : ℕ) (s : Text)
    → ((v : Text) (q' e' : Bool) → P (read_word v q' e' (offset + width c) s))
    → (is_space (rune c) ≡ true
        → P (record { value = value; quoted = q; escaped = e; offset = offset; rest = c ∷ s }))
    → P (read_word value q e offset (c ∷ s))
unfolding read_word
read_word_step P value q e offset c s go stop =
    if_rule P e _ _ (λ _. go _ q false)
      (λ _.
        if_rule P (rune c == b'\\' && q) _ _ (λ _. go value q true)
          (λ _.
            if_rule P (rune c == b'"') _ _ (λ _. go value (not q) false)
              (λ _.
                if_rule P (not q && is_space (rune c)) _ _
                  (λ h. stop (&&_true (not q) (is_space (rune c)) h).1) (λ _. go _ q false))))

read_word-Left :
    (total offset : ℕ) (value : Text) (q e : Bool) (s : Text)
    → Ends total offset s
    → Left total offset (length s) (read_word value q e offset s)
unfolding byte_length
read_word-Left total offset value q e [] h =
    unfold read_word in record { ends = h; forward = omega arith; shorter = omega arith }
read_word-Left total offset value q e (c ∷ s) h =
    let next = λ (v : Text) (q' e' : Bool).
      read_word-Left total (offset + width c) v q' e' s (omega arith) in
    read_word_step (Left total offset (suc (length s))) value q e offset c s
      (λ v q' e'.
        let l = next v q' e' in
        record {
          ends = l.ends;
          forward = omega (arith, l.forward);
          shorter = omega (arith, l.shorter);
        })
      (λ _. record { ends = h; forward = omega arith; shorter = omega arith })

-- At a word the loop takes its first rune.
read_word-first :
    (total offset c : ℕ) (s : Text)
    → Ends total offset (c ∷ s)
    → is_space (rune c) ≡ false
    → Left total (suc offset) (length s) (read_word [] false false offset (c ∷ s))
unfolding byte_length
read_word-first total offset c s h word =
    read_word_step (Left total (suc offset) (length s)) [] false false offset c s
      (λ v q' e'.
        let l = read_word-Left total (offset + width c) v q' e' s (omega arith) in
        record {
          ends = l.ends;
          forward = omega (arith, l.forward, width_pos c);
          shorter = l.shorter;
        })
      (λ space. cc)

-- The words, oldest first: each is not empty, and stands behind the last, before `upto`.
pub data InOrder (upto : ℕ) : ℕ → List Token → Type 0 where
  stop : {from : ℕ} → from ≤ upto → InOrder upto from []
  next :
      {from : ℕ} {t : Token} {ts : List Token}
      → from ≤ t.start
      → t.start < t.stop
      → t.value ≢ []
      → InOrder upto t.stop ts
      → InOrder upto from (t ∷ ts)

-- The answers that `tokenize` may give.
abbrev pub Answer : ℕ → Result (List Token) → Type 0
Answer total (ok ts) = InOrder total 0 ts
Answer total (err incomplete_escape) = Unit
Answer total (err unterminated_quote) = Unit
Answer total (err _) = ⊥

InOrder-snoc :
    (upto last from : ℕ) (ts : List Token) (t : Token)
    → InOrder upto from ts
    → upto ≤ t.start
    → t.start < t.stop
    → t.value ≢ []
    → t.stop ≤ last
    → InOrder last from (ts ++ t ∷ [])
InOrder-snoc upto last from [] t (stop h) a b c d = next (omega arith) b c (stop d)
InOrder-snoc upto last from (u ∷ ts) t (next h k l m) a b c d =
    next h k l (InOrder-snoc upto last _ ts t m a b c d)

InOrder-later :
    (upto last : ℕ) {from : ℕ} {ts : List Token}
    → InOrder upto from ts
    → upto ≤ last
    → InOrder last from ts
InOrder-later upto last (stop h) k = stop (omega arith)
InOrder-later upto last (next a b c d) k = next a b c (InOrder-later upto last d k)

keep_word-InOrder :
    (offset start : ℕ) (ts : List Token) (r : Reading)
    → InOrder offset 0 ts
    → offset ≤ start
    → start < r.offset
    → InOrder r.offset 0 (keep_word ts start r)
keep_word-InOrder offset start ts r h a b = keep r.value refl
  where
    keep : (v : Text) → r.value ≡ v → InOrder r.offset 0 (keep_word ts start r)
    keep [] e = rw e (InOrder-later offset r.offset h (omega arith))
    keep (c ∷ v) e = rw e (InOrder-snoc offset r.offset 0 ts _ h a b (λ bad. cc) (omega arith))

module _ (total fuel : ℕ) (more : List Token → ℕ → Text → Result (List Token))
    (rounds : (ts : List Token) (o : ℕ) (s : Text)
      → length s < fuel
      → Ends total o s
      → InOrder o 0 ts
      → Answer total (more ts o s)) where
  after_word-Answer :
      (offset start : ℕ) (ts : List Token) (r : Reading) (n : ℕ)
      → n < fuel
      → Left total (suc start) n r
      → offset ≤ start
      → InOrder offset 0 ts
      → Answer total (after_word more ts start r)
  unfolding after_word
  after_word-Answer offset start ts r n small l a o =
      if_rule (Answer total) r.escaped _ _ (λ _. tt)
        (λ _.
          if_rule (Answer total) r.quoted _ _ (λ _. tt)
            (λ _.
              rounds (keep_word ts start r) r.offset r.rest (omega (arith, l.shorter)) l.ends
                (keep_word-InOrder offset start ts r o a (omega (arith, l.forward)))))

  word_at-Answer :
      (offset : ℕ) (ts : List Token) (r : ℕ × Text)
      → Skipped total offset fuel r
      → InOrder offset 0 ts
      → Answer total (word_at more ts r)
  unfolding word_at byte_length
  word_at-Answer offset ts (start, []) k o =
      InOrder-later offset total o (omega (arith, k.ends, k.forward))
  word_at-Answer offset ts (start, c ∷ s) k o =
      after_word-Answer offset start ts (read_word [] false false start (c ∷ s)) (length s)
        k.shorter (read_word-first total start c s k.ends k.at_word) k.forward o

words-Answer :
    (fuel total offset : ℕ) (ts : List Token) (s : Text)
    → length s < fuel
    → Ends total offset s
    → InOrder offset 0 ts
    → Answer total (words fuel ts offset s)
unfolding words
words-Answer zero total offset ts s f h o = absurd (omega arith)
words-Answer (suc fuel) total offset ts s f h o =
    let k = skip_space-Skipped total offset s h in
    word_at-Answer total fuel (words fuel) (λ ts' o' s'. words-Answer fuel total o' ts' s') offset
      ts (skip_space offset s)
      (record {
        ends = k.ends;
        forward = k.forward;
        shorter = omega (arith, k.shorter);
        at_word = k.at_word;
      })
      o

-- `tokenize` always ends, with one of its two errors or with words that are not empty, follow one
-- another and lie inside the text.
pub tokenize-Answer : (raw : Text) → Answer (byte_length raw) (tokenize raw)
unfolding tokenize
tokenize-Answer raw =
    words-Answer (suc (length raw)) (byte_length raw) 0 [] raw (omega arith) (omega arith)
      (stop (omega arith))
