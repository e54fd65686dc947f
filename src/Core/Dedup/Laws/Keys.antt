-- ===== src/Core/Dedup/Laws/Keys.antt =====
-- The text of a key determines the message.
use moot.Common.{◌≡◌, ◌≢◌, refl, sym, ap, String, ◌<>◌, Bool, true, false, ◌∙◌, arith, eq_iff}
use Prim.Native.Char.{Char, code}
use text.Mathlib.TextLemmas.{nil-append, cons-append, cons-eq-cons}
use moot.Core.Dedup.{flag, key_text}

-- A text with no line feed.
abbrev pub NoLf : String → Type 0
NoLf String.[] = Unit
NoLf (String.◌∷◌ c s) = (code c ≢ 10) × NoLf s

abbrev pub lf : Char
lf = "\n"

pub nil-line : (t : String) → "" <> "\n" <> t ≡ String.◌∷◌ lf t
nil-line t = nil-append ("\n" <> t) ∙ cons-append lf String.[] t ∙ ap (String.◌∷◌ lf) (nil-append t)

pub split_first_line :
    (s s' t t' : String)
    → NoLf s
    → NoLf s'
    → s <> "\n" <> t ≡ s' <> "\n" <> t'
    → (s ≡ s') × (t ≡ t')
split_first_line String.[] String.[] t t' n n' e =
    (refl, (cons-eq-cons.0 (sym (nil-line t) ∙ e ∙ nil-line t')).1)
split_first_line String.[] (String.◌∷◌ c s') t t' n n' e =
    absurd (
      n'.0
        (ap code (sym (cons-eq-cons.0 (sym (nil-line t) ∙ e ∙ cons-append c s' ("\n" <> t'))).0)))
split_first_line (String.◌∷◌ c s) String.[] t t' n n' e =
    absurd (n.0 (ap code (cons-eq-cons.0 (sym (cons-append c s ("\n" <> t)) ∙ e ∙ nil-line t')).0))
split_first_line (String.◌∷◌ c s) (String.◌∷◌ c' s') t t' n n' e =
    let (heads, tails) =
      cons-eq-cons.0 (sym (cons-append c s ("\n" <> t)) ∙ e ∙ cons-append c' s' ("\n" <> t')) in
    let (rest, texts) = split_first_line s s' t t' n.1 n'.1 tails in (cc, texts)

pub flag-injective : (p q : Bool) → flag p ≡ flag q → p ≡ q
flag-injective true true e = refl
flag-injective true false e = ground (arith, eq_iff "1" "0")
flag-injective false true e = ground (arith, eq_iff "0" "1")
flag-injective false false e = refl

pub flag-NoLf : (p : Bool) → NoLf (flag p)
flag-NoLf true = omega arith
flag-NoLf false = omega arith

-- Two messages have the same key text only if they are the same message, public or private, to the
-- same recipient.
pub key_text-injective :
    (to to' text text' : String) (private private' : Bool)
    → NoLf to
    → NoLf to'
    → key_text to text private ≡ key_text to' text' private'
    → (to ≡ to') × (private ≡ private') × (text ≡ text')
unfolding key_text
key_text-injective to to' text text' private private' n n' e =
    let (tos, rest) = split_first_line to to' _ _ n n' e in
    let (flags, texts) =
      split_first_line (flag private) (flag private') text text' (flag-NoLf private)
        (flag-NoLf private') rest in
    (tos, flag-injective private private' flags, texts)
