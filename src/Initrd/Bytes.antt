-- ===== src/Initrd/Bytes.antt =====
-- What the tests of lab6/OrangePiVer/Src/initrd.c say of the bytes of an archive.
use nycu_osc_lab.Prelude.{
  ℕ, zero, suc, ◌+◌, ltb, ◌<◌, ◌≡◌, ◌↔◌, refl, sym, ap, ◌∙◌, ◌⊎◌, inl, inr, Bool, true, ◌&&◌, ◌==◌,
  List, [], ◌∷◌, length, get_or, arith, Bool-cases, ==_iff,
}
use nycu_osc_lab.KString.{kstrncmp}
use nycu_osc_lab.KString.Laws.{IsString, take, kstrcmp_iff, str_eq_iff, kstrncmp-take}
use nycu_osc_lab.User.{Memory}
use nycu_osc_lab.Initrd.{string_at, equals_at, magic, trailer, has_magic, filename_match}

-- Memory holds bytes.
abbrev pub IsBytes : Memory → Type 0
IsBytes m = (a : ℕ) → m a < 256

-- The characters of `s` stand at `a`.
abbrev pub BytesAt : Memory → ℕ → List ℕ → Type 0
BytesAt m a [] = Unit {0}
BytesAt m a (c ∷ s) = (m a ≡ c) × BytesAt m (a + 1) s

-- The string `s` stands at `a`, with its NUL.
abbrev pub StringAt : Memory → ℕ → List ℕ → Type 0
StringAt m a [] = m a ≡ 0
StringAt m a (c ∷ s) = (m a ≡ c) × StringAt m (a + 1) s

-- The name at `a` is `s` or "./" and `s`.
abbrev pub NameAt : Memory → ℕ → List ℕ → Type 0
NameAt m a s = StringAt m a s ⊎ ((m a ≡ 46) × (m (a + 1) ≡ 47) × StringAt m (a + 2) s)

string_at-IsString : (n : ℕ) (m : Memory) (a : ℕ) → IsBytes m → IsString (string_at n m a)
unfolding string_at
string_at-IsString zero m a b = tt
string_at-IsString (suc n) m a b = elim (Bool-cases (m a == 0)) [
  | inl nul ↦ rw nul tt
  | inr char ↦ rw char (λ e. ground (arith, char, e), b a, string_at-IsString n m (a + 1) b)
]

tail_of : List ℕ → List ℕ
tail_of [] = []
tail_of (c ∷ s) = s

tail_eq : {c d : ℕ} {s r : List ℕ} → c ∷ s ≡ d ∷ r → s ≡ r
unfolding tail_of
tail_eq e = ap tail_of e

head_eq : {c d : ℕ} {s r : List ℕ} → c ∷ s ≡ d ∷ r → c ≡ d
head_eq e = ap (λ l. get_or l 0 0) e

no_cons : {c : ℕ} {s : List ℕ} → c ∷ s ≡ [] → ⊥
no_cons e = absurd (omega (arith, ap length e))

string_at_iff :
    (s : List ℕ) (m : Memory) (a : ℕ)
    → IsString s
    → (string_at (suc (length s)) m a ≡ s) ↔ StringAt m a s
unfolding string_at
string_at_iff [] m a h = elim (Bool-cases (m a == 0)) [
  | inl nul ↦ rw nul (λ e. ground (arith, nul), λ e. refl)
  | inr char ↦ rw char (λ e. absurd (no_cons e), λ e. absurd (ground (arith, char, e)))
]
string_at_iff (c ∷ s) m a (nz, lt, h) = elim (Bool-cases (m a == 0)) [
  | inl nul ↦
      rw nul (λ e. absurd (no_cons (sym e)), λ (e, k). absurd (nz (sym e ∙ (==_iff (m a) 0).0 nul)))
  | inr char ↦
      let rest = string_at_iff s m (a + 1) h in
      rw char (
        λ e. (head_eq e, rest.0 (tail_eq e)),
        λ (e, k). ap (λ d. d ∷ string_at (suc (length s)) m (a + 1)) e ∙ ap (λ r. c ∷ r) (rest.1 k),
      )
]

pub equals_at_iff :
    (m : Memory) (a : ℕ) (s : List ℕ)
    → IsBytes m
    → IsString s
    → (equals_at m a s ≡ true) ↔ StringAt m a s
unfolding equals_at
equals_at_iff m a s b h =
    let same =
      str_eq_iff (string_at (suc (length s)) m a) s (string_at-IsString (suc (length s)) m a b) h in
    let bytes = string_at_iff s m a h in (λ e. bytes.0 (same.0 e), λ k. same.1 (bytes.1 k))

take_iff :
    (s : List ℕ) (m : Memory) (a : ℕ)
    → IsString s
    → (take (length s) (string_at (length s) m a) ≡ s) ↔ BytesAt m a s
unfolding string_at
take_iff [] m a h = (λ e. tt, λ e. refl)
take_iff (c ∷ s) m a (nz, lt, h) = elim (Bool-cases (m a == 0)) [
  | inl nul ↦
      rw nul (λ e. absurd (no_cons (sym e)), λ (e, k). absurd (nz (sym e ∙ (==_iff (m a) 0).0 nul)))
  | inr char ↦
      let rest = take_iff s m (a + 1) h in
      rw char (
        λ e. (head_eq e, rest.0 (tail_eq e)),
        λ (e, k).
            ap (λ d. d ∷ take (length s) (string_at (length s) m (a + 1))) e
            ∙ ap (λ r. c ∷ r) (rest.1 k),
      )
]

take-IsString : (n : ℕ) (s : List ℕ) → IsString s → IsString (take n s)
take-IsString zero s h = tt
take-IsString (suc n) [] h = tt
take-IsString (suc n) (c ∷ s) (nz, lt, h) = (nz, lt, take-IsString n s h)

abbrev all_characters : List ℕ → Bool
all_characters [] = true
all_characters (c ∷ s) = let rest = all_characters s in ltb 0 c && (ltb c 256 && rest)

all_characters-IsString : (s : List ℕ) → all_characters s ≡ true → IsString s
all_characters-IsString [] h = tt
all_characters-IsString (c ∷ s) h =
    (λ e. ground (arith, h, e), ground (arith, h), all_characters-IsString s (ground (arith, h)))

magic-IsString : IsString magic
magic-IsString = all_characters-IsString magic refl

pub trailer-IsString : IsString trailer
trailer-IsString = all_characters-IsString trailer refl

pub has_magic_iff : (m : Memory) (p : ℕ) → IsBytes m → (has_magic m p ≡ true) ↔ BytesAt m p magic
unfolding has_magic
has_magic_iff m p b =
    let cut = kstrncmp-take (string_at 6 m p) magic 6 in
    let same =
      kstrcmp_iff (take 6 (string_at 6 m p)) magic
        (take-IsString 6 (string_at 6 m p) (string_at-IsString 6 m p b)) magic-IsString in
    let bytes = take_iff magic m p magic-IsString in
    let zero_iff = ==_iff (kstrncmp (string_at 6 m p) magic 6) 0 in
    (λ e. bytes.0 (same.0 (sym cut ∙ zero_iff.0 e)), λ k. zero_iff.1 (cut ∙ same.1 (bytes.1 k)))

pub filename_match_iff :
    (m : Memory) (a : ℕ) (s : List ℕ)
    → IsBytes m
    → IsString s
    → (filename_match m a s ≡ true) ↔ NameAt m a s
unfolding filename_match
filename_match_iff m a s b h =
    let whole = equals_at_iff m a s b h in
    let after = equals_at_iff m (a + 2) s b h in
    (
      λ e. elim (Bool-cases (equals_at m a s)) [
        | inl y ↦ inl (whole.0 y)
        | inr n ↦ inr (ground (arith, e, n), ground (arith, e, n), after.0 (ground (arith, e, n)))
      ],
      λ k. elim k [
        | inl y ↦ rw (whole.1 y) refl
        | inr (x, y, z) ↦
            let found = after.1 z in
            let dot = (==_iff (m a) 46).1 x in
            let slash = (==_iff (m (a + 1)) 47).1 y in
            elim (Bool-cases (equals_at m a s)) [
              | inl e ↦ rw e refl
              | inr e ↦ rw (e, dot, slash, found) refl
            ]
      ],
    )
