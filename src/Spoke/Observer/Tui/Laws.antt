-- ===== src/Spoke/Observer/Tui/Laws.antt =====
-- What the keys keep.
use Prim.Native.String.{String}
use moot.Common.{
  ℕ, ◌-◌, ◌≡◌, refl, subst, Option, some, List, [], ◌∷◌, ◌==◌, any, arith, inl, inr, Bool-cases,
  Option-cases, is_empty, if_intro,
}
use mathlib.Core.Option.{none-ne-some, some-injective}
use moot.Spoke.Terminal.Editor.{
  newline, submit, Act, act, inserts, breaks, submits, kills_all, deletes,
}
use moot.Spoke.Terminal.Editor.Laws.{IsValid, act-IsValid}
use moot.Spoke.Terminal.Keys.{Key, char, paste, enter, alt_enter, named}
use moot.Spoke.Terminal.Screen.{region_bottom}
use moot.Spoke.Observer.Parse.{strip}
use moot.Spoke.Observer.Command.{build_outgoing}
use moot.Spoke.Observer.Command.Replies.{Outgoing, Reply}
use moot.Spoke.Observer.Tui.{
  Terminal, Ui, show_error, record_line, ignored_note, send_frames, take_line, on_reply,
  press_enter, edit, edit_or_quit, act_of, press_named, press_key, redrawn, press,
}

show_error-editor : (text : List ℕ) (s : Ui) → (show_error text s).editor ≡ s.editor
unfolding show_error
show_error-editor text s = refl

record_line-editor :
    (w : Terminal) (line : List ℕ) (s : Ui) → (record_line w line s).editor ≡ s.editor
unfolding record_line show_error
record_line-editor w line s = ground arith

send_frames-editor : (out : Outgoing) (s : Ui) → (send_frames out s).editor ≡ s.editor
unfolding send_frames show_error
send_frames-editor out s = ground arith

ignored_note-editor :
    (text : List ℕ) (out : Outgoing) (s : Ui) → (ignored_note text out s).editor ≡ s.editor
unfolding ignored_note
ignored_note-editor text out s = ground arith

take_line-editor :
    (w : Terminal) (r : Reply) (s : Ui)
    → (take_line w r s).editor ≡ (submit w.world.place.unicode s.editor).1
unfolding take_line
take_line-editor w r s = rw (send_frames-editor, ignored_note-editor, record_line-editor) refl

on_reply-IsValid :
    (w : Terminal) (r : Reply) (s : Ui) → IsValid s.editor → IsValid (on_reply w r s).editor
unfolding on_reply show_error act
on_reply-IsValid w r s v = elim (Option-cases r.out.error) [
  | inr (detail, e) ↦ rw (on_reply, e) v
  | inl e ↦ elim (Bool-cases (any w.too_long r.out.frames)) [
    | inl l ↦ rw (on_reply, e, l) v
    | inr l ↦
        rw (on_reply, e, l, take_line-editor) (act-IsValid w.world.place.unicode submits s.editor v)
  ]
]

press_enter-IsValid :
    (w : Terminal) (s : Ui)
    → IsValid s.editor
    → {t : Ui} → press_enter w s ≡ some t
    → IsValid t.editor
unfolding press_enter act
press_enter-IsValid w s v {t} e = elim (Bool-cases (stripped == "")) [
  | inl blank ↦
      subst (λ x. IsValid x.editor) (some-injective _ t (rw (press_enter, blank) at e))
        (act-IsValid w.world.place.unicode submits s.editor v)
  | inr typed ↦ elim (Option-cases reply) [
    | inl failed ↦ absurd (none-ne-some t (rw (press_enter, typed, failed) at e))
    | inr (r, built) ↦
        subst (λ x. IsValid x.editor) (some-injective _ t (rw (press_enter, typed, built) at e))
          (on_reply-IsValid w r s v)
  ]
]
  where
    stripped : String
    stripped = strip w.world.place.unicode.is_space (w.text s.editor.buf)

    reply : Option Reply
    reply = build_outgoing w.world stripped (region_bottom s.screen - 2) s.seat s.pretty

edit_or_quit-IsValid :
    (w : Terminal) (a : Act) (s : Ui) → IsValid s.editor → IsValid (edit_or_quit w a s).editor
unfolding edit_or_quit edit
edit_or_quit-IsValid w a s v = elim (Bool-cases (is_empty s.editor.buf)) [
  | inl e ↦ rw (edit_or_quit, e) v
  | inr e ↦ rw (edit_or_quit, e) (act-IsValid w.world.place.unicode a s.editor v)
]

abbrev IsEdited : Ui → Type 0
IsEdited s = IsValid s.editor

press_named-IsValid :
    (w : Terminal) (name : String) (s : Ui)
    → IsValid s.editor
    → IsValid (press_named w name s).editor
unfolding press_named edit
press_named-IsValid w name s v = elim (Option-cases (act_of name)) [
  | inr (a, e) ↦ rw (press_named, e) (act-IsValid w.world.place.unicode a s.editor v)
  | inl e ↦
      rw (press_named, e)
        (if_intro IsEdited (name == "ctrl_l") (λ _. v)
          (λ _.
            if_intro IsEdited (name == "ctrl_c") (λ _. edit_or_quit-IsValid w kills_all s v)
              (λ _.
                if_intro IsEdited (name == "ctrl_d") (λ _. edit_or_quit-IsValid w deletes s v)
                  (λ _. v))))
]

press_key-IsValid :
    (w : Terminal) (key : Key) (s : Ui) {t : Ui}
    → press_key w key s ≡ some t
    → IsValid s.editor
    → IsValid t.editor
unfolding press_key act newline
press_key-IsValid w (char text) s {t} e v =
    subst IsEdited (some-injective _ t e)
      (act-IsValid w.world.place.unicode (inserts text) s.editor v)
press_key-IsValid w (paste text) s {t} e v =
    subst IsEdited (some-injective _ t e)
      (act-IsValid w.world.place.unicode (inserts text) s.editor v)
press_key-IsValid w alt_enter s {t} e v =
    subst IsEdited (some-injective _ t e) (act-IsValid w.world.place.unicode breaks s.editor v)
press_key-IsValid w enter s e v = press_enter-IsValid w s v e
press_key-IsValid w (named name) s {t} e v =
    subst IsEdited (some-injective _ t e) (press_named-IsValid w name s v)

-- However the keys end, by the seat's end or by the end of the input, the cursor stays inside the
-- buffer and the position in the history inside the history.
pub press-IsValid :
    (w : Terminal) (keys : List Key) (s : Ui) {t : Ui}
    → press w keys s ≡ some t
    → IsValid s.editor
    → IsValid t.editor
unfolding press redrawn
press-IsValid w [] s {t} e v = subst IsEdited (some-injective s t e) v
press-IsValid w (key ∷ keys) s {t} e v = elim (Option-cases (press_key w key s)) [
  | inl failed ↦ absurd (none-ne-some t (rw (press, failed) at e))
  | inr (u, pressed) ↦ elim (Bool-cases u.quit) [
    | inl q ↦
        subst IsEdited (some-injective u t (rw (press, pressed, q) at e))
          (press_key-IsValid w key s pressed v)
    | inr q ↦
        press-IsValid w keys (redrawn w u) (rw (press, pressed, q) at e)
          (press_key-IsValid w key s pressed v)
  ]
]
