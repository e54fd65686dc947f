-- ===== src/Spoke/Inbox/Delivered.antt =====
-- What an inbox without carriage returns has delivered, and what a look or a report keeps of it.
use Prim.Native.String.{String}
use moot.Common.{
  ℕ, ◌≡◌, ◌∙◌, refl, sym, ap, false, some, List, [], ◌∷◌, ◌++◌, ◌==◌, inl, inr, length, drop,
  drop-length_append, length-append, arith, Bool-cases, Option-cases,
}
use mathlib.Core.List.{append_assoc, append-nil}
use mathlib.Core.Option.{some-injective}
use moot.Common.Dict
use moot.Spoke.Observer.Seat.{str_or_empty}
use moot.Spoke.Terminal.Keys.{unix_lines}
use moot.Spoke.Inbox.Clean.{IsClean, IsClean-append, unix_lines-IsClean, encode-IsClean}
use moot.Spoke.Inbox.{Place, Bridge, report, read_cursor, contents, grow, consume_unread}

-- Strict UTF-8, which takes nothing but what it writes, and numbers in decimal.
pub record IsText (p : Place) : Type 0 where
  pub decoded : (bytes text : List ℕ) → p.decode bytes ≡ some text → p.encode text ≡ bytes
  pub carriage : p.encode (0x0D ∷ []) ≡ 0x0D ∷ []
  pub blank : p.encode [] ≡ []
  pub joined : (s t : List ℕ) → p.encode (s ++ t) ≡ p.encode s ++ p.encode t
  pub inked : (n : ℕ) → (p.strip (p.decimal n) == "") ≡ false
  pub reads : (n : ℕ) → p.int_of (p.strip (p.decimal n)) ≡ some n

-- What was printed is the begin of the inbox, and the cursor stands behind it.
pub record IsDelivered (p : Place) (b : Bridge) : Type 0 where
  pub rest : List ℕ
  pub behind : contents b ≡ p.encode b.printed ++ rest
  pub resumes : read_cursor p b ≡ some (length (p.encode b.printed))

module _ (p : Place) (text : IsText p) where
  pub grow-IsDelivered :
      (bytes : List ℕ) (b : Bridge) → IsDelivered p b → IsDelivered p (grow bytes b)
  unfolding grow contents read_cursor
  grow-IsDelivered [] b v = v
  grow-IsDelivered (byte ∷ bytes) b v = record {
    rest = v.rest ++ byte ∷ bytes;
    behind =
        ap (λ bs. bs ++ byte ∷ bytes) v.behind
        ∙ append_assoc (p.encode b.printed) v.rest (byte ∷ bytes);
    resumes = v.resumes;
  }

  pub report-IsDelivered :
      (state : String) (b : Bridge) → IsDelivered p b → IsDelivered p (report p state b)
  unfolding report contents read_cursor
  report-IsDelivered state b v =
      elim (Bool-cases (str_or_empty (Dict.get "t" (p.reply (length b.reported))) == "ok")) [
        | inl e ↦ rw (report, e) (record { rest = v.rest; behind = v.behind; resumes = v.resumes })
        | inr e ↦ rw (report, e) (record { rest = v.rest; behind = v.behind; resumes = v.resumes })
      ]

  pub grow-read_cursor :
      (bytes : List ℕ) (b : Bridge) → read_cursor p (grow bytes b) ≡ read_cursor p b
  unfolding grow read_cursor
  grow-read_cursor [] b = refl
  grow-read_cursor (byte ∷ bytes) b = refl

  pub report-read_cursor :
      (state : String) (b : Bridge) → read_cursor p (report p state b) ≡ read_cursor p b
  unfolding report read_cursor
  report-read_cursor state b = ground arith

  pub consume_unread-IsDelivered :
      (start : ℕ) (b : Bridge)
      → read_cursor p b ≡ some start
      → IsClean (contents b)
      → IsDelivered p b
      → IsDelivered p (consume_unread p start b).1
  unfolding consume_unread contents read_cursor
  consume_unread-IsDelivered start b at clean v = elim (Option-cases b.inbox) [
    | inl e ↦ rw (consume_unread, e) v
    | inr (bytes, e) ↦ elim (Option-cases (p.decode (drop start bytes))) [
      | inl d ↦ rw (consume_unread, e, d) v
      | inr (new_text, d) ↦
          let here : start ≡ length (p.encode b.printed) =
            some-injective _ _ (sym at ∙ v.resumes) in
          let unread : drop start bytes ≡ v.rest =
            (rw (← drop-length_append (p.encode b.printed) v.rest, ← v.behind, ← here)
              (rw (contents, e) refl)) in
          let new : p.encode new_text ≡ v.rest = text.decoded _ new_text d ∙ unread in
          let behind : IsClean v.rest =
            (IsClean-append (p.encode b.printed) v.rest (rw (v.behind) at clean)).1 in
          let plain : unix_lines new_text ≡ new_text =
            unix_lines-IsClean new_text
              (encode-IsClean p.encode text.joined text.carriage new_text (rw (new) behind)) in
          rw (consume_unread, e, d, plain)
            (record {
              rest = [];
              behind =
                  v.behind
                  ∙ rw
                      (
                        text.joined b.printed new_text,
                        new,
                        append-nil (p.encode b.printed ++ v.rest),
                      )
                      refl;
              resumes =
                  rw (text.inked _, text.reads _)
                    (ap some (
                      rw
                        (
                          here,
                          text.joined b.printed new_text,
                          length-append (p.encode b.printed) (p.encode new_text),
                        )
                        refl));
            })
    ]
  ]
