-- ===== src/Spoke/Conn/Laws.antt =====
-- What the hub makes of a hello, and what a spoke gets of a hub's frames.
use Prim.Native.String.{String}
use moot.Common.{
  ◌≡◌, ◌↔◌, refl, sym, ap, Bool, true, false, not, ◌||◌, Option, none, some, List, [], ◌∷◌, map,
  All, ◌==◌, any, all, inl, inr, Bool-cases, eq_iff, arith,
}
use moot.Common.Dict
use moot.Common.Dict.{Dict}
use moot.Core.Hub.State.{Host}
use moot.Core.Hub.Hello.Request.{str_value, hello_of}
use moot.Core.Hub.Hello.Backlog.{is_text}
use moot.Core.Proto.Json.{Json, Fields, entries, elements, is_str, truthy}
use moot.Core.Hub.Say.{text_field}
use moot.Core.Proto.Names.{is_name}
use mathlib.Core.Bool.{false≢true}
use moot.Core.Proto.{ErrCode}
use moot.Core.Proto.Validate.{
  Check, ok, reject_if, ◌>>◌, reserved_names, validate_hello, check_label, caps_ok,
}
use moot.Spoke.Conn.{
  Conn, texts, hello_frame, read_line, send, recv, close, frames, hub_error, connected, on_welcome,
  connect,
}

texts-strings : (caps : List String) → all is_str (elements (texts caps)) ≡ true
unfolding texts elements is_str
texts-strings [] = refl
texts-strings (cap ∷ caps) = texts-strings caps

-- A name, a kind and a role as the hub asks for.
abbrev pub IsAllowed : Host → String → String → String → Type 0
IsAllowed host name kind role =
    (any (λ r. host.casefold name == r) reserved_names ≡ false)
    × (is_name name ≡ true)
    × (is_name kind ≡ true)
    × (check_label "role" 256 role ≡ ok tt)

guarded :
    (b : Bool) (code : ErrCode) (detail : String) (next : Check (Unit {0}))
    → (reject_if b code detail >> next ≡ ok tt) ↔ ((b ≡ false) × (next ≡ ok tt))
guarded true code detail next = (λ e. ground arith, λ h. absurd (false≢true (sym h.0)))
guarded false code detail next = (λ e. (refl, e), λ h. h.1)

hello_frame-validate_hello :
    (host : Host) (name kind role : String) (caps : List String)
    → (validate_hello host (hello_frame name kind role caps) ≡ ok tt)
      ↔ IsAllowed host name kind role
unfolding validate_hello hello_frame Dict.get caps_ok
hello_frame-validate_hello host name kind role caps = (
  λ e.
      let (name_ok, e1) = (guarded bad_name _ _ _).0 e in
      let (kind_ok, e2) = (guarded bad_kind _ _ _).0 e1 in
      let (_, role_ok) = (guarded bad_caps _ _ _).0 e2 in ground (arith, name_ok, kind_ok, role_ok),
  λ h. (guarded bad_name _ _ _).1 (
    ground (arith, h.0, h.1),
    (guarded bad_kind _ _ _).1
        (ground (arith, h.2), (guarded bad_caps _ _ _).1 (rw (texts-strings caps) refl, h.3)),
  ),
)
  where
    bad_name : Bool
    bad_name = any (λ r. host.casefold name == r) reserved_names || not (is_name name)

    bad_kind : Bool
    bad_kind = not (is_name kind)

    bad_caps : Bool
    bad_caps = not (all is_str (elements (texts caps)))

caps_field-texts :
    (host : Host) (caps : List String) → map (str_value host) (elements (texts caps)) ≡ caps
unfolding texts elements str_value
caps_field-texts host [] = refl
caps_field-texts host (cap ∷ caps) = ap (◌∷◌ cap) (caps_field-texts host caps)

-- The hub accepts the hello that connect sends if and only if the name is none of the reserved ones
-- and is a name, the kind is a name, and the role is short and without control characters; and what
-- the hub reads from it are the name, the kind, the role and the capabilities, with no room.
pub hello_frame-hello_of :
    (host : Host) (name kind role : String) (caps : List String)
    → ((validate_hello host (hello_frame name kind role caps) ≡ ok tt)
        ↔ IsAllowed host name kind role)
      × (hello_of host (hello_frame name kind role caps)
          ≡ record { name = name; kind = kind; role = role; caps = caps; room = none })
unfolding hello_of hello_frame Dict.get text_field truthy
hello_frame-hello_of host name kind role caps = (
  hello_frame-validate_hello host name kind role caps,
  elim (Bool-cases (role == "")) [
    | inl e ↦ rw (caps_field-texts host caps, e, (eq_iff role "").0 e) refl
    | inr e ↦ rw (caps_field-texts host caps, e) refl
  ],
)

one_text :
    (v : Option Json)
    → elim v as (λ _. Bool) [ some (Json.str s) ↦ s == "welcome" | _ ↦ false ] ≡ true
    → elim v as (λ _. Bool) [ some (Json.str s) ↦ s == "err" | _ ↦ false ] ≡ false
one_text (some (Json.str s)) e = rw ((eq_iff s "welcome").0 e) refl
one_text _ e = refl

module _ (loads : String → Option Json) (dumps : Json → String) where
  -- a frame that is read back as it was written
  abbrev pub IsFaithful : Fields → Type 0
  IsFaithful fs = loads (dumps (Json.obj fs)) ≡ some (Json.obj fs)

  frames-dumps :
      (later : List Fields)
      → All IsFaithful later
      → frames loads (map (λ fs. dumps (Json.obj fs)) later) ≡ (map entries later, true)
  unfolding frames read_line
  frames-dumps [] f = refl
  frames-dumps (fs ∷ later) f = rw (frames, read_line, f.0, frames-dumps later f.1) refl

  -- At a hub that answers the hello with a welcome, connect returns this welcome and a connection
  -- that is open and carried the hello and nothing else; from it `frames` yields every later frame
  -- of the hub, in order, up to the end of the connection. Frames are read back as they were
  -- written.
  pub connect-frames :
      (host : Host) (name kind role : String) (caps : List String) (welcome : Fields)
      (later : List Fields)
      → is_text "t" "welcome" (entries welcome) ≡ true
      → All IsFaithful (welcome ∷ later)
      → (c : Conn) × (connect host loads
            (some (map (λ fs. dumps (Json.obj fs)) (welcome ∷ later)))
            name
            kind
            role
            caps
          ≡ connected c (entries welcome))
        × (c.sent ≡ hello_frame name kind role caps ∷ [])
        × (c.closed ≡ false)
        × (frames loads c.inbound ≡ (map entries later, true))
  unfolding connect send recv on_welcome is_text read_line
  connect-frames host name kind role caps welcome later greets faithful = (
    record {
      inbound = map (λ fs. dumps (Json.obj fs)) later;
      sent = hello_frame name kind role caps ∷ [];
      closed = false;
    },
    rw (connect, read_line, faithful.0, on_welcome, not_err, greets) refl,
    refl,
    refl,
    frames-dumps later faithful.1,
  )
    where
      not_err : is_text "t" "err" (entries welcome) ≡ false
      not_err = one_text (Dict.get "t" (entries welcome)) greets

-- Where the hub refuses, says something else or hangs up during the hello, the connection is closed.
hub_error-closed :
    (host : Host) (loads : String → Option Json) (answers : Option (List String))
    (name kind role : String) (caps : List String) (code detail : String) (c : Conn)
    → connect host loads answers name kind role caps ≡ hub_error code detail c
    → c.closed ≡ true
unfolding connect on_welcome recv close send read_line
hub_error-closed host loads answers name kind role caps code detail c e = ground arith
