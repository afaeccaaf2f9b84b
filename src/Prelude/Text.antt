-- ===== src/Prelude/Text.antt =====
-- Texts as lists of code points, with the tests that Rust's `str` has.
use Prim.Native.Nat.{ℕ}
use Prim.Native.Char.{code}
use Prim.Native.String.{String}
use mathlib.Core.Path.{◌≡◌, refl, ap}
use mathlib.Core.Logic.{◌⊎◌, inl, inr}
use mathlib.Core.Bool.{Bool, true, false, ◌&&◌, ◌||◌}
use mathlib.Core.List.{List, [], ◌∷◌, ◌++◌}
use native.Mathlib.Omega.{arith}
use robust_provider.Prelude.Logic.{◌==◌, and-eq-true, or-eq-true}

abbrev pub Message : Type 0
Message = List ℕ

abbrev pub codes : String → Message
codes String.[] = []
codes (String.◌∷◌ c s) = code c ∷ codes s

-- `a == b` on `&str`.
unfoldable pub text_eq : Message → Message → Bool
text_eq [] [] = true
text_eq (a ∷ s) (b ∷ t) = a == b && text_eq s t
text_eq _ _ = false

-- `text.starts_with(prefix)`.
unfoldable pub starts_with : Message → Message → Bool
starts_with text [] = true
starts_with [] (_ ∷ _) = false
starts_with (a ∷ text) (b ∷ prefix) = a == b && starts_with text prefix

-- `text.ends_with(suffix)`.
unfoldable pub ends_with : Message → Message → Bool
unfolding text_eq
ends_with [] suffix = text_eq [] suffix
ends_with (a ∷ text) suffix = text_eq (a ∷ text) suffix || ends_with text suffix

-- `text.contains(part)`.
unfoldable pub contains : Message → Message → Bool
unfolding starts_with
contains [] part = starts_with [] part
contains (a ∷ text) part = starts_with (a ∷ text) part || contains text part

-- `matches!(text, … | …)` over literals.
unfoldable pub one_of : Message → List Message → Bool
unfolding text_eq
one_of text [] = false
one_of text (t ∷ ts) = text_eq text t || one_of text ts

pub text_eq_sound : (s t : Message) → text_eq s t ≡ true → s ≡ t
unfolding text_eq
text_eq_sound [] [] h = refl
text_eq_sound (a ∷ s) (b ∷ t) h = ground (arith, text_eq_sound s t)
text_eq_sound [] (_ ∷ _) h = ground arith
text_eq_sound (_ ∷ _) [] h = ground arith

pub text_eq_refl : (s : Message) → text_eq s s ≡ true
unfolding text_eq
text_eq_refl [] = refl
text_eq_refl (a ∷ s) = ground (arith, text_eq_refl s)

pub starts_with_sound :
    (text prefix : Message)
    → starts_with text prefix ≡ true
    → (rest : Message) × (text ≡ prefix ++ rest)
unfolding starts_with
starts_with_sound text [] h = (text, refl)
starts_with_sound [] (b ∷ p) h = ground arith
starts_with_sound (a ∷ text) (b ∷ p) h =
    let (same, more) = and-eq-true (a == b) (starts_with text p) h in
    let (rest, e) = starts_with_sound text p more in (rest, ground arith)

pub starts_with-append : (prefix rest : Message) → starts_with (prefix ++ rest) prefix ≡ true
unfolding starts_with
starts_with-append [] rest = refl
starts_with-append (b ∷ p) rest = ground (arith, starts_with-append p rest)

pub ends_with_sound :
    (text suffix : Message)
    → ends_with text suffix ≡ true
    → (front : Message) × (text ≡ front ++ suffix)
unfolding ends_with
ends_with_sound [] suffix h = ([], text_eq_sound [] suffix h)
ends_with_sound (a ∷ text) suffix h =
    elim (or-eq-true (text_eq (a ∷ text) suffix) (ends_with text suffix) h) [
      | inl whole ↦ ([], text_eq_sound (a ∷ text) suffix whole)
      | inr later ↦ let (front, e) = ends_with_sound text suffix later in (a ∷ front, ap (◌∷◌ a) e)
    ]

pub ends_with_self : (suffix : Message) → ends_with suffix suffix ≡ true
unfolding ends_with
ends_with_self [] = refl
ends_with_self (a ∷ s) = ground (arith, text_eq_refl (a ∷ s))

pub ends_with-append : (front suffix : Message) → ends_with (front ++ suffix) suffix ≡ true
unfolding ends_with
ends_with-append [] suffix = ends_with_self suffix
ends_with-append (a ∷ front) suffix = ground (arith, ends_with-append front suffix)

pub contains_sound :
    (text part : Message)
    → contains text part ≡ true
    → (front : Message) × (rest : Message) × (text ≡ front ++ (part ++ rest))
unfolding contains
contains_sound [] part h = let (rest, e) = starts_with_sound [] part h in ([], rest, e)
contains_sound (a ∷ text) part h =
    elim (or-eq-true (starts_with (a ∷ text) part) (contains text part) h) [
      | inl whole ↦ let (rest, e) = starts_with_sound (a ∷ text) part whole in ([], rest, e)
      | inr later ↦
          let (front, rest, e) = contains_sound text part later in (a ∷ front, rest, ap (◌∷◌ a) e)
    ]

contains-prefix : (part rest : Message) → contains (part ++ rest) part ≡ true
unfolding contains
contains-prefix [] [] = refl
contains-prefix [] (_ ∷ _) = refl
contains-prefix (a ∷ part) rest = ground (arith, starts_with-append (a ∷ part) rest)

pub contains-append : (front part rest : Message) → contains (front ++ (part ++ rest)) part ≡ true
unfolding contains
contains-append [] part rest = contains-prefix part rest
contains-append (a ∷ front) part rest = ground (arith, contains-append front part rest)

-- Membership in a list of texts, by recursion.
abbrev pub Among : Message → List Message → Type 0
Among text [] = ⊥
Among text (t ∷ ts) = (text ≡ t) ⊎ Among text ts

pub one_of_sound : (text : Message) (ts : List Message) → one_of text ts ≡ true → Among text ts
unfolding one_of
one_of_sound text [] h = ground arith
one_of_sound text (t ∷ ts) h = elim (or-eq-true (text_eq text t) (one_of text ts) h) [
  | inl e ↦ inl (text_eq_sound text t e)
  | inr later ↦ inr (one_of_sound text ts later)
]

pub one_of_complete : (text : Message) (ts : List Message) → Among text ts → one_of text ts ≡ true
unfolding one_of
one_of_complete text [] h = absurd h
one_of_complete text (t ∷ ts) (inl e) = ground (arith, text_eq_refl t)
one_of_complete text (t ∷ ts) (inr later) = ground (arith, one_of_complete text ts later)
