-- ===== src/Scim/Membership.antt =====
-- Which members a group has.
use repo_karta.Common.Equal.{has_text, has_text-append, is_blank, text_eq-path, text_eq_self}
use repo_karta.Common.Text.{Text, text_eq, trim_space}
use repo_karta.Common.{
  ◌≡◌, ◌∙◌, refl, sym, ap, subst, true, false, ◌&&◌, ◌||◌, not, List, [], ◌∷◌, ◌++◌, arith, select,
  select_yes, select_no, if◌then◌else◌, if_rule, Bool-cases, inl, inr,
}
use repo_karta.Scim.Members.{add_members, append_new, append_unique, member_values, retain}

text_eq_sym : (s t : Text) → text_eq s t ≡ false → text_eq t s ≡ false
text_eq_sym s t h = elim (Bool-cases (text_eq t s)) [
  | inl e ↦
      let p = text_eq-path t s e in
      let q = text_eq_self s in
      let r : text_eq s t ≡ true = subst (λ x. text_eq s x ≡ true) (sym p) q in absurd cc
  | inr e ↦ e
]

-- No member is empty or stands twice.
abbrev pub IsProper : List Text → Type 0
IsProper [] = Unit
IsProper (m ∷ ms) = (is_blank m ≡ false) × (has_text m ms ≡ false) × IsProper ms

has_text-last :
    (m s : Text) (ms : List Text)
    → has_text m ms ≡ false
    → text_eq s m ≡ false
    → has_text m (ms ++ s ∷ []) ≡ false
unfolding has_text
has_text-last m s ms h k =
    let e = text_eq_sym s m k in ground (arith, has_text-append m ms (s ∷ []))

append-IsProper :
    (s : Text) (ms : List Text)
    → is_blank s ≡ false
    → has_text s ms ≡ false
    → IsProper ms
    → IsProper (ms ++ s ∷ [])
unfolding has_text
append-IsProper s [] b h p = (b, refl, tt)
append-IsProper s (m ∷ ms) b h p =
    (p.0, has_text-last m s ms p.1 (ground arith), append-IsProper s ms b (ground arith) p.2)

append_new-IsProper : (s : Text) (ms : List Text) → IsProper ms → IsProper (append_new s ms)
unfolding append_new
append_new-IsProper s ms p =
    if_rule IsProper (not (has_text s ms) && not (is_blank s)) (ms ++ s ∷ []) ms
      (λ h. append-IsProper s ms (ground arith) (ground arith) p) (λ _. p)

pub append_unique-IsProper :
    (ms additions : List Text) → IsProper ms → IsProper (append_unique ms additions)
unfolding append_unique
append_unique-IsProper ms [] p = p
append_unique-IsProper ms (a ∷ rest) p =
    append_unique-IsProper (append_new a ms) rest (append_new-IsProper a ms p)

add_members-IsProper : (ms members : List Text) → IsProper ms → IsProper (add_members ms members)
unfolding add_members
add_members-IsProper ms [] p = p
add_members-IsProper ms (m ∷ members) p =
    let added = append_unique ms (trim_space m ∷ []) in
    add_members-IsProper (if not (is_blank (trim_space m)) then added else ms) members (
      if_rule IsProper (not (is_blank (trim_space m))) added ms
        (λ _. append_unique-IsProper ms (trim_space m ∷ []) p) (λ _. p))

pub member_values-IsProper : (members : List Text) → IsProper (member_values members)
unfolding member_values
member_values-IsProper members = add_members-IsProper [] members tt

same_text :
    (s m : Text) (removed : List Text)
    → text_eq s m ≡ true
    → has_text s removed ≡ has_text m removed
same_text s m removed h = ap (λ t. has_text t removed) (text_eq-path s m h)

-- What a removal keeps.
pub has_text-retain :
    (s : Text) (removed ms : List Text)
    → has_text s (retain removed ms) ≡ (has_text s ms && not (has_text s removed))
unfolding retain has_text
has_text-retain s removed [] = refl
has_text-retain s removed (m ∷ ms) =
    let ih = has_text-retain s removed ms in
    let keep = λ (t : Text). not (has_text t removed) in
    elim (Bool-cases (has_text m removed)) [
      | inl gone ↦ rw (select_no keep m ms (rw gone refl)) (elim (Bool-cases (text_eq s m)) [
        | inl e ↦ let f = same_text s m removed e in ground arith
        | inr e ↦ ground arith
      ])
      | inr kept ↦ rw (select_yes keep m ms (rw kept refl)) (elim (Bool-cases (text_eq s m)) [
        | inl e ↦ let f = same_text s m removed e in ground arith
        | inr e ↦ ground arith
      ])
    ]

pub retain-IsProper : (removed ms : List Text) → IsProper ms → IsProper (retain removed ms)
unfolding retain
retain-IsProper removed [] p = tt
retain-IsProper removed (m ∷ ms) p =
    let keep = λ (t : Text). not (has_text t removed) in
    let rest = retain-IsProper removed ms p.2 in
    elim (Bool-cases (has_text m removed)) [
      | inl gone ↦ rw (select_no keep m ms (rw gone refl)) rest
      | inr kept ↦
          let e : has_text m (select keep ms) ≡ (has_text m ms && not (has_text m removed)) =
            has_text-retain m removed ms in
          let absent = p.1 in
          rw (select_yes keep m ms (rw kept refl)) (p.0, e ∙ rw absent refl, rest)
    ]

-- What an addition has.
has_text-append_new :
    (s a : Text) (ms : List Text)
    → has_text s (append_new a ms) ≡ (has_text s ms || (not (is_blank s) && text_eq s a))
unfolding append_new has_text
has_text-append_new s a ms = elim (Bool-cases (text_eq s a)) [
  | inl same ↦
      let in_ms : has_text s ms ≡ has_text a ms = ap (λ t. has_text t ms) (text_eq-path s a same) in
      let blank : is_blank s ≡ is_blank a = ap is_blank (text_eq-path s a same) in
      if_rule (λ l. has_text s l ≡ (has_text s ms || (not (is_blank s) && text_eq s a)))
        (not (has_text a ms) && not (is_blank a)) (ms ++ a ∷ []) ms
        (λ h. let e = has_text-append s ms (a ∷ []) in ground arith) (λ h. ground arith)
  | inr other ↦
      if_rule (λ l. has_text s l ≡ (has_text s ms || (not (is_blank s) && text_eq s a)))
        (not (has_text a ms) && not (is_blank a)) (ms ++ a ∷ []) ms
        (λ h. let e = has_text-append s ms (a ∷ []) in ground arith) (λ h. ground arith)
]

pub has_text-append_unique :
    (s : Text) (ms additions : List Text)
    → has_text s (append_unique ms additions)
      ≡ (has_text s ms || (not (is_blank s) && has_text s additions))
unfolding append_unique has_text
has_text-append_unique s ms [] = ground arith
has_text-append_unique s ms (a ∷ rest) =
    let ih = has_text-append_unique s (append_new a ms) rest in
    let here = has_text-append_new s a ms in ground arith
