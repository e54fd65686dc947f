-- ===== src/Core/Hub/Seated/Leaves.antt =====
-- Disconnection against the registry's invariant.
use moot.Common.{ℕ, refl, String, none, [], ◌∷◌, eqb, if_intro, Option-cases, inl, inr}
use moot.Common.Dict
use moot.Common.Dict.{
  Dict, NodupKeys, Entries, Entries-get, Entries-put, Entries-delete, Entries-imp, put-NodupKeys,
  delete-NodupKeys,
}
use moot.Core.Proto.Json.{Json}
use moot.Core.Hub.State.{Hub, Participant, is_connected}
use moot.Core.Hub.Util.{discard, emit_event, touch_activity}
use moot.Core.Hub.Lifecycle.{bury, bury_holder, close_client, disconnect}
use moot.Core.Hub.Hello.{reap}
use moot.Core.Hub.Quiet.{close-Quiet, emit_event-Quiet}
use moot.Core.Hub.Sound.{IsSound}
use moot.Core.Hub.Seated.{IsSeat, IsGrave, IsSeated, names_of, Quiet-IsSeated, get-IsSeat}
use moot.Core.Hub.Seated.Deliver.{check_session_done-IsSeated}

pub bury-IsSeated :
    (p : Participant) (h : Hub) → IsSound h.config p → IsSeated h → IsSeated (bury p h)
unfolding bury touch_activity
bury-IsSeated p h s v =
    let moved = record h {
      dead = Dict.put p.name p h.dead;
      participants = Dict.delete p.name h.participants;
      blocked_notified = discard p.name h.blocked_notified;
    } in
    check_session_done-IsSeated
      (emit_event "peer_left" none (("name", Json.str p.name) ∷ []) (touch_activity moved))
      (Quiet-IsSeated (emit_event-Quiet "peer_left" none _ (touch_activity moved)) (record {
        sane = v.sane;
        distinct = delete-NodupKeys p.name h.participants v.distinct;
        seats = Entries-delete (IsSeat h.config (names_of h)) p.name h.participants v.seats;
        graves =
            Entries-put (IsGrave h.config) p.name p h.dead v.graves
              (record { listed = refl; sound = s });
      }))

pub bury_holder-IsSeated :
    (c : ℕ) (k : String) (h : Hub)
    → IsSeated h
    → IsSeated (bury_holder c (Dict.get k h.participants) h)
unfolding bury_holder
bury_holder-IsSeated c k h v = elim (Option-cases (Dict.get k h.participants)) [
  | inl e ↦ rw (e, bury_holder) v
  | inr (p, e) ↦
      rw (e, bury_holder)
        (if_intro IsSeated (eqb p.client c) (λ _. bury-IsSeated p h (get-IsSeat h k v e).sound v)
          (λ _. v))
]

pub disconnect-IsSeated : (c : ℕ) (h : Hub) → IsSeated h → IsSeated (disconnect c h)
unfolding disconnect close_client
disconnect-IsSeated c h v =
    Quiet-IsSeated (close-Quiet c _) (bury_holder-IsSeated c (h.connections c).name h v)

pub reap-IsSeated : (name : String) (h : Hub) → IsSeated h → IsSeated (reap name h)
unfolding reap
reap-IsSeated name h v = elim (Option-cases (Dict.get name h.participants)) [
  | inl e ↦ rw (e, reap) v
  | inr (p, e) ↦
      rw (e, reap)
        (if_intro IsSeated (is_connected h p) (λ _. v) (λ _. disconnect-IsSeated p.client h v))
]
