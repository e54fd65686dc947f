-- ===== src/Core/Hub/Route.antt =====
-- core/hub.py: from an accepted say to the copies that each participant gets.
use moot.Common.{
  ℕ, ◌+◌, ◌-◌, String, Bool, true, false, not, ◌&&◌, Option, none, some, List, [], ◌∷◌, ◌++◌, ◌==◌,
  ltb, eqb, any, take_last, if◌then◌else◌,
}
use moot.Common.Dict
use moot.Common.Dict.{Dict}
use moot.Common.Int.{ℤ}
use moot.Core.Types.{Msg, Addressing, tag, direct, broadcast, overheard, is_idle}
use moot.Core.Buffer
use moot.Core.Proto.Json.{Json}
use moot.Core.Hub.State.{Hub, Participant, is_observer, live, on, is_connected, roll}
use moot.Core.Hub.Util.{number}
use moot.Core.Hub.Delivery.{enqueue, deliver}

-- The fields of a say frame.
pub record Say : Type 0 where
  pub to : String
  pub kind : String
  pub text : String
  pub seq : ℤ
  pub private : Bool

unfoldable pub addressing : Participant → String → Addressing
addressing recipient to =
    if to == recipient.name then direct else if to == "*" then broadcast else overheard

unfoldable pub targets_agent : Hub → String → Bool
targets_agent h to = elim (Dict.get to h.participants) [
  | none ↦ false
  | some q ↦ not (is_observer q)
]

unfoldable pub targets_observer : Hub → String → Bool
targets_observer h to = elim (Dict.get to h.participants) [ none ↦ false | some q ↦ is_observer q ]

unfoldable pub observer_present : Option String → Hub → Bool
observer_present name h =
    any
      (λ q.
        is_observer q
        && is_connected h q
        && elim name [ none ↦ true | some n ↦ q.name == n ]
        && ltb (h.clock.monotonic - q.last_rx) h.config.present_within)
      (roll h)

-- `xs[-n:]`, which is all of xs for n = 0
unfoldable pub last_n {ℓ} : {A : Type ℓ} → ℕ → List A → List A
last_n n xs = if eqb n 0 then xs else take_last n xs

unfoldable pub message : Participant → Say → ℕ → ℕ → Msg
message p s id ts = record {
  id = id;
  sender = p.name;
  to = s.to;
  kind = s.kind;
  text = s.text;
  ts = ts;
  addressing = none;
  seq = some s.seq;
  private = s.private;
}

-- the record that goes into the recent window and, with the round, into the transcript
unfoldable pub msg_record : Msg → Dict Json
msg_record m =
    ("id", number m.id)
    ∷ ("from", Json.str m.sender)
    ∷ ("to", Json.str m.to)
    ∷ ("kind", Json.str m.kind)
    ∷ ("text", Json.str m.text)
    ∷ ("ts", Json.float m.ts)
    ∷ (if m.private then ("private", Json.bool true) ∷ [] else [])

-- The state of the loop over the participants.
pub record Routing : Type 0 where
  pub hub : Hub
  pub queued : ℕ
  pub woken : List (Participant × List Msg)
  pub observers : List (Participant × List Msg)

unfoldable pub wake : Participant → Msg → Routing → Routing
wake q tagged r =
    let (drained, context) = Buffer.drain (live r.hub q).context (some tagged.id) in
    record r {
      hub = on q.name (λ x. record x { context = context }) r.hub;
      woken = r.woken ++ (q, drained ++ tagged ∷ []) ∷ [];
    }

unfoldable pub overhear : Participant → Msg → Routing → Routing
overhear q tagged r = if tagged.private then r else record r {
  hub = on q.name (λ x. record x { context = Buffer.append x.context tagged }) r.hub;
}

unfoldable pub offer_agent : Participant → Addressing → Msg → Routing → Routing
unfolding wake overhear
offer_agent q overheard tagged r = overhear q tagged r
offer_agent q mode tagged r =
    if is_idle (live r.hub q).state && is_connected r.hub q
    then wake q tagged r
    else record r { hub = enqueue q tagged r.hub; queued = r.queued + 1 }

unfoldable pub offer_observer : Participant → Msg → Routing → Routing
offer_observer q tagged r =
    if is_connected r.hub q
    then record r { observers = r.observers ++ (q, tagged ∷ []) ∷ [] }
    else r

-- one round of the loop; the sender gets nothing
unfoldable pub offer : String → Msg → Participant → Routing → Routing
unfolding offer_agent offer_observer addressing tag
offer sender msg q r =
    let mode = addressing q msg.to in
    let tagged = tag msg mode in
    if q.name == sender
    then r
    else if is_observer q
    then offer_observer q tagged r
    else offer_agent q mode tagged r

unfoldable pub offer_all : String → Msg → List Participant → Routing → Routing
unfolding offer
offer_all sender msg [] r = r
offer_all sender msg (q ∷ qs) r = offer_all sender msg qs (offer sender msg q r)

unfoldable pub deliver_all : List (Participant × List Msg) → Hub → Hub
deliver_all [] h = h
deliver_all ((q, batch) ∷ rest) h = deliver_all rest (deliver q batch h)
