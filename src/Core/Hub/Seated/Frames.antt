-- ===== src/Core/Hub/Seated/Frames.antt =====
-- Inbound frames and a new hub against the registry's invariant.
use moot.Common.{
  ℕ, ◌≡◌, ◌≢◌, refl, sym, ap, ◌∙◌, String, true, false, none, some, List, ◌==◌, codes, if_intro,
  Option-cases, inl, inr, subst, eq_iff,
}
use mathlib.Core.Bool.{false≢true}
use moot.Common.Dict
use moot.Common.Dict.{Dict}
use moot.Core.Clock.{Clock}
use moot.Core.Config.{Config}
use moot.Core.Proto.{malformed}
use moot.Core.Proto.Json.{Json}
use moot.Core.Proto.Names.{is_name, match_name}
use moot.Core.Proto.Validate.{ok, req_str, validate_type, validate}
use moot.Core.Proto.Validate.Accepted.{Check-cases, bind_ok, req_str_ok, valid_name}
use moot.Core.Frame.{Record}
use moot.Core.Hub.State.{Host, Hub, Participant}
use moot.Core.Hub.Say.{text_field}
use moot.Core.Hub.Hello.Request.{hello_of}
use moot.Core.Hub.Control.{opt_seq}
use moot.Core.Hub.Init.{new_hub}
use moot.Core.Hub.Dispatch.{life_sign, handle_registered, handle_valid, handle}
use moot.Core.Hub.Quiet.{err_raw-Quiet}
use moot.Core.Hub.Sound.{IsSane}
use moot.Core.Hub.Seated.{IsSeated, Quiet-IsSeated, on-IsSeated}
use moot.Core.Hub.Seated.Deliver.{same-Keeps}
use moot.Core.Hub.Seated.Says.{handle_say-IsSeated}
use moot.Core.Hub.Seated.Joins.{handle_hello-IsSeated}
use moot.Core.Hub.Seated.Leaves.{disconnect-IsSeated}
use moot.Core.Hub.Seated.Commands.{handle_state-IsSeated, handle_cmd-IsSeated, handle_roster-Quiet}

empty_name : is_name "" ≡ false
unfolding is_name match_name codes
empty_name = refl

name-IsNonempty : (name : String) → is_name name ≡ true → name ≢ ""
name-IsNonempty name e empty = false≢true (sym empty_name ∙ sym (ap is_name empty) ∙ e)

pub text_field_str :
    (host : Host) (frame : Dict Json) (key s : String)
    → Dict.get key frame ≡ some (Json.str s)
    → text_field host key frame ≡ s
unfolding text_field
text_field_str host frame key s e = rw (e, text_field) refl

hello_name :
    (host : Host) (frame : Dict Json)
    → validate host frame ≡ ok tt
    → text_field host "t" frame ≡ "hello"
    → (hello_of host frame).name ≢ ""
unfolding validate validate_type hello_of
hello_name host frame e t empty =
    let (s, at, e') = bind_ok (req_str frame "t") (λ t. validate_type host t frame) tt e in
    let same = sym (text_field_str host frame "t" s (req_str_ok frame "t" s at)) ∙ t in
    let (name, found, fine) =
      valid_name host frame (subst (λ t. validate_type host t frame ≡ ok tt) same e') in
    name-IsNonempty name fine (sym (text_field_str host frame "name" name found) ∙ empty)

handle_registered-IsSeated :
    (c : ℕ) (t : String) (frame : Dict Json) (p : Participant) (h : Hub)
    → IsSeated h
    → IsSeated (handle_registered c t frame p h)
unfolding handle_registered
handle_registered-IsSeated c t frame p h v =
    if_intro IsSeated (t == "say") (λ _. handle_say-IsSeated p frame h v)
      (λ _.
        if_intro IsSeated (t == "state") (λ _. handle_state-IsSeated p frame h v)
          (λ _.
            if_intro IsSeated (t == "cmd") (λ _. handle_cmd-IsSeated p frame h v)
              (λ _.
                if_intro IsSeated (t == "roster")
                  (λ _. Quiet-IsSeated (handle_roster-Quiet p frame h) v)
                  (λ _. if_intro IsSeated (t == "bye") (λ _. disconnect-IsSeated c h v) (λ _. v)))))

life_sign-IsSeated : (p : Participant) (h : Hub) → IsSeated h → IsSeated (life_sign p h)
unfolding life_sign
life_sign-IsSeated p h v =
    on-IsSeated p.name _ h (same-Keeps (λ q. refl) (λ q. refl) (λ q. refl) (λ q. refl)) v

handle_valid-IsSeated :
    (c : ℕ) (frame : Dict Json) (h : Hub)
    → validate h.host frame ≡ ok tt
    → IsSeated h
    → IsSeated (handle_valid c (text_field h.host "t" frame) frame h)
unfolding handle_valid
handle_valid-IsSeated c frame h e v =
    let t = text_field h.host "t" frame in
    if_intro IsSeated (t == "hello")
      (λ hello.
        handle_hello-IsSeated c frame h (hello_name h.host frame e ((eq_iff t "hello").0 hello)) v)
      (λ _. elim (Option-cases (Dict.get (h.connections c).name h.participants)) [
        | inl absent ↦
            rw absent (Quiet-IsSeated (err_raw-Quiet c malformed "hello expected first" none h) v)
        | inr (p, found) ↦
            rw found
              (handle_registered-IsSeated c t frame p (life_sign p h) (life_sign-IsSeated p h v))
      ])

-- Whatever frame a connection sends, valid or not, the registry's invariant is kept.
pub handle-IsSeated :
    (c : ℕ) (frame : Dict Json) (h : Hub) → IsSeated h → IsSeated (handle c frame h)
unfolding handle
handle-IsSeated c frame h v = elim (Check-cases (validate h.host frame)) [
  | inl (code, detail, e) ↦
      rw (e, handle) (Quiet-IsSeated (err_raw-Quiet c code detail (opt_seq frame) h) v)
  | inr e ↦ rw (e, handle) (handle_valid-IsSeated c frame h e v)
]

-- A hub of a sane configuration starts with the registry's invariant.
pub new_hub-IsSeated :
    (host : Host) (config : Config) (clock : Clock) (transcript : List Record)
    (recent : List (Dict Json))
    → IsSane config
    → IsSeated (new_hub host config clock transcript recent)
unfolding new_hub
new_hub-IsSeated host config clock transcript recent sane = record {
  sane = sane;
  distinct = tt;
  seats = tt;
  graves = tt;
}
