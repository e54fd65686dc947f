-- ===== src/Core/Proto/Validate/Accepted.antt =====
-- What the fields of a validated frame are.
use moot.Common.{
  ◌≡◌, refl, String, ◌<>◌, Bool, true, false, not, ◌||◌, ◌&&◌, some, arith, ◌==◌, any, eq_iff, inl,
  inr, ◌⊎◌,
}
use moot.Common.Dict
use moot.Common.Dict.{Dict}
use moot.Core.Hub.State.{Host}
use moot.Core.Proto.{ErrCode, malformed, proto_mismatch}
use moot.Core.Proto.Json.{Json}
use moot.Core.Proto.Names.{is_name}
use moot.Core.Proto.Validate.{
  validate_cmd, opt_obj, rounds_ok, is_one_of, commands, Check, ok, raise, ◌>>=◌, reject_if,
  req_str, req_int, is_version, reserved_names, validate_hello,
}

pub bind_ok {ℓ κ} :
    {A : Type ℓ} {B : Type κ} (m : Check A) (f : A → Check B) (b : B)
    → (m >>= f) ≡ ok b
    → (a : A) × (m ≡ ok a) × (f a ≡ ok b)
bind_ok (ok a) f b e = (a, refl, e)
bind_ok (raise code detail) f b e = cc

pub Check-cases :
    (m : Check (Unit {0}))
    → ((code : ErrCode) × (detail : String) × (m ≡ raise code detail)) ⊎ (m ≡ ok tt)
Check-cases (ok u) = inr refl
Check-cases (raise code detail) = inl (code, detail, refl)

pub reject_if_ok :
    (test : Bool) (code : ErrCode) (detail : String) (u : Unit {0})
    → reject_if test code detail ≡ ok u
    → test ≡ false
reject_if_ok true code detail u e = cc
reject_if_ok false code detail u e = refl

pub req_str_ok :
    (frame : Dict Json) (key s : String)
    → req_str frame key ≡ ok s
    → Dict.get key frame ≡ some (Json.str s)
unfolding req_str
req_str_ok frame key s e = ground arith

pub valid_name :
    (host : Host) (frame : Dict Json)
    → validate_hello host frame ≡ ok tt
    → (name : String) × (Dict.get "name" frame ≡ some (Json.str name)) × (is_name name ≡ true)
unfolding validate_hello
valid_name host frame e =
    let (proto, _, e1) = bind_ok (req_int frame "proto") _ tt e in
    let (_, _, e2) =
      bind_ok (reject_if (not (is_version proto)) proto_mismatch "hub speaks proto=1") _ tt e1 in
    let (name, at, e3) = bind_ok (req_str frame "name") _ tt e2 in
    let (u, fine, _) =
      bind_ok
        (reject_if (any (λ r. host.casefold name == r) reserved_names || not (is_name name))
          malformed ("invalid name: " <> host.repr name))
        _ tt e3 in
    (name, req_str_ok frame "name" name at, ground (arith, reject_if_ok _ _ _ u fine))

pub valid_rounds :
    (host : Host) (frame : Dict Json)
    → validate_cmd host frame ≡ ok tt
    → (cmd : String) × (args : Dict Json) × (Dict.get "cmd" frame ≡ some (Json.str cmd))
      × (opt_obj frame ≡ ok args)
      × (cmd ≡ "resume" → rounds_ok (Dict.get "n" args) ≡ true)
unfolding validate_cmd
valid_rounds host frame e =
    let (cmd, at, e1) = bind_ok (req_str frame "cmd") _ tt e in
    let (_, _, e2) =
      bind_ok
        (reject_if (not (is_one_of commands cmd)) malformed ("unknown command: " <> host.repr cmd))
        _ tt e1 in
    let (args, given, e3) = bind_ok (opt_obj frame) _ tt e2 in
    let (u, fine, _) =
      bind_ok
        (reject_if ((cmd == "resume") && not (rounds_ok (Dict.get "n" args))) malformed
          "args.n must be a positive integer")
        _ tt e3 in
    (
      cmd,
      args,
      req_str_ok frame "cmd" cmd at,
      given,
      λ same. ground (arith, reject_if_ok _ _ _ u fine, (eq_iff cmd "resume").1 same),
    )
