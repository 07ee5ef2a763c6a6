-- ===== src/KString/Laws.antt =====
-- What the comparisons of lab6/OrangePiVer/Src/kstring.c decide.
use nycu_osc_lab.Prelude.{
  ℕ, zero, suc, ◌<◌, ◌≡◌, ◌≢◌, ◌↔◌, refl, ap, ◌∙◌, get_or, length, inl, inr, true, ◌==◌, List, [],
  ◌∷◌, ◌++◌, Bool-cases, arith, ==_iff,
}
use nycu_osc_lab.KString.{kstrcmp, kstrncmp, str_eq, starts_with}

-- The characters of a string: bytes other than NUL.
abbrev pub IsString : List ℕ → Type 0
IsString [] = Unit {0}
IsString (c ∷ s) = (c ≢ 0) × (c < 256) × IsString s

abbrev pub take : ℕ → List ℕ → List ℕ
take zero s = []
take (suc n) [] = []
take (suc n) (c ∷ s) = c ∷ take n s

abbrev tail : List ℕ → List ℕ
tail [] = []
tail (c ∷ s) = s

-- kstrcmp returns 0 exactly for equal strings.
pub kstrcmp_iff : (a b : List ℕ) → IsString a → IsString b → (kstrcmp a b ≡ 0) ↔ (a ≡ b)
unfolding kstrcmp
kstrcmp_iff [] [] h k = (λ e. refl, λ e. refl)
kstrcmp_iff [] (d ∷ b) h k =
    (λ e. absurd (omega (arith, e, k.0, k.1)), λ e. absurd (ground (arith, e)))
kstrcmp_iff (c ∷ a) [] h k =
    (λ e. absurd (omega (arith, e, h.0, h.1)), λ e. absurd (ground (arith, e)))
kstrcmp_iff (c ∷ a) (d ∷ b) h k = elim (Bool-cases (c == d)) [
  | inl same ↦
      let e = (==_iff c d).0 same in
      let rest = kstrcmp_iff a b h.2 k.2 in
      rw same (λ z. ap (λ x. x ∷ a) e ∙ ap (λ s. d ∷ s) (rest.0 z), λ q. rest.1 (ap tail q))
  | inr other ↦ rw other (
    λ z. absurd (ground (arith, other, z, h.1, k.1)),
    λ q. absurd (ground (arith, other, ap (λ s. get_or s 0 0) q)),
  )
]

-- str_eq is true exactly for equal strings.
pub str_eq_iff : (a b : List ℕ) → IsString a → IsString b → (str_eq a b ≡ true) ↔ (a ≡ b)
unfolding str_eq
str_eq_iff a b h k =
    let c = kstrcmp_iff a b h k in
    (λ e. c.0 ((==_iff (kstrcmp a b) 0).0 e), λ e. (==_iff (kstrcmp a b) 0).1 (c.1 e))

-- kstrncmp compares the first n characters: it is kstrcmp of the two strings cut there.
pub kstrncmp-take : (a b : List ℕ) (n : ℕ) → kstrncmp a b n ≡ kstrcmp (take n a) (take n b)
unfolding kstrncmp kstrcmp
kstrncmp-take a b zero = refl
kstrncmp-take [] [] (suc n) = refl
kstrncmp-take [] (d ∷ b) (suc n) = refl
kstrncmp-take (c ∷ a) [] (suc n) = refl
kstrncmp-take (c ∷ a) (d ∷ b) (suc n) = elim (Bool-cases (c == d)) [
  | inl same ↦ rw same (kstrncmp-take a b n)
  | inr other ↦ rw other refl
]

-- starts_with is true exactly when the string is the prefix with something behind it.
pub starts_with_iff :
    (s prefix : List ℕ) → (starts_with s prefix ≡ true) ↔ ((rest : List ℕ) × (s ≡ prefix ++ rest))
unfolding starts_with
starts_with_iff s [] = (λ e. (s, refl), λ e. refl)
starts_with_iff [] (p ∷ prefix) =
    (λ e. absurd (ground (arith, e)), λ (rest, e). absurd (ground (arith, ap length e)))
starts_with_iff (c ∷ s) (p ∷ prefix) = elim (Bool-cases (c == p)) [
  | inl same ↦
      let e = (==_iff c p).0 same in
      let more = starts_with_iff s prefix in
      rw same (
        λ z. let (rest, q) = more.0 z in (rest, ap (λ x. x ∷ s) e ∙ ap (λ t. p ∷ t) q),
        λ (rest, q). more.1 (rest, ap tail q),
      )
  | inr other ↦ rw other (
    λ z. absurd (ground (arith, z)),
    λ (rest, q). absurd (ground (arith, other, ap (λ t. get_or t 0 0) q)),
  )
]
