-- ===== src/Core/Hub/Private/Spared.antt =====
-- An agent, its record and its connection, while others are sent and delivered to.
use moot.Common.{
  ℕ, ◌≡◌, ◌≢◌, refl, sym, ap, ◌∙◌, String, true, false, not, ◌&&◌, Option, none, some, List, [],
  ◌∷◌, map, arith, ◌==◌, leb, any, keep, eq_false_of_ne, All, if_intro,
}
use mathlib.Core.Bool.{false≢true}
use moot.Common.Dict
use moot.Common.Dict.{
  Dict, get-modify, Entries, Entries-imp, Entries-and, Entries-found, Entries-modify,
}
use moot.Core.Types.{Msg, to_wire, is_overheard}
use moot.Core.Proto.Json.{Json}
use moot.Core.Frame.{Frame, Record}
use moot.Core.Server.{StreamClient}
use moot.Core.Hub.State.{Hub, Participant, is_observer, on, at_client, is_connected, roll}
use moot.Core.Hub.Util.{
  send_client, send, append_record, skipped, to_observers, emit_event, notify, touch_activity,
}
use moot.Core.Hub.Session.{warn_unattended, freeze_at_limit, check_round_limit}
use moot.Core.Hub.Delivery.{sort_by_id, ids, set_busy, deliver}
use moot.Core.Hub.Route.{deliver_all}

-- Nobody but the holder of a name sits on its connection, and the holder is an agent.
module _ (n : String) (k : ℕ) where
  pub record IsApart (x : Participant) : Type 0 where
    pub seen : x.name ≡ n → is_observer x ≡ false
    pub apart : x.name ≢ n → x.client ≢ k

  pub record IsAway (x : Participant) : Type 0 where
    pub name : x.name ≢ n
    pub client : x.client ≢ k

module _ (n : String) (k : ℕ) (q : Participant) (c : StreamClient) where
  pub record IsUntouched (participants : Dict Participant) (connections : ℕ → StreamClient)
      : Type 0 where
    pub kept : Dict.get n participants ≡ some q
    pub still : connections k ≡ c
    pub others : Entries (λ j x. IsApart n k x) participants

  abbrev pub IsSpared : Hub → Type 0
  IsSpared h = IsUntouched h.participants h.connections

  pub values-IsApart :
      (d : Dict Participant) → Entries (λ j x. IsApart n k x) d → All (IsApart n k) (Dict.values d)
  unfolding Dict.values
  values-IsApart [] e = tt
  values-IsApart ((j, x) ∷ d) e = (e.0, values-IsApart d e.1)

  pub roll-IsApart : (h : Hub) → IsSpared h → All (IsApart n k) (roll h)
  unfolding roll
  roll-IsApart h s = values-IsApart h.participants s.others

  pub observer-IsAway : (x : Participant) → is_observer x ≡ true → IsApart n k x → IsAway n k x
  observer-IsAway x o a =
      let named : x.name ≢ n = λ e. false≢true (sym (a.seen e) ∙ o) in
      record { name = named; client = a.apart named }

  pub send-IsSpared :
      (x : Participant) (f : Frame) (h : Hub) → IsAway n k x → IsSpared h → IsSpared (send x f h)
  unfolding send send_client at_client
  send-IsSpared x f h a s = record {
    kept = s.kept;
    still = ground (arith, a.client, s.still);
    others = s.others;
  }

  pub on-IsSpared :
      (name : String) (f : Participant → Participant) (h : Hub)
      → name ≢ n
      → ((x : Participant) → (f x).name ≡ x.name)
      → ((x : Participant) → (f x).client ≡ x.client)
      → ((x : Participant) → (f x).kind ≡ x.kind)
      → IsSpared h
      → IsSpared (on name f h)
  unfolding on is_observer
  on-IsSpared name f h ne fn fc fo s = record {
    kept = get-modify name n f h.participants ∙ rw (eq_false_of_ne name n ne) s.kept;
    still = s.still;
    others =
        Entries-modify (λ j x. IsApart n k x) name f h.participants
          (λ j x a. record {
            seen = λ e. ap (λ y. y == "observer") (fo x) ∙ a.seen (sym (fn x) ∙ e);
            apart = λ e f. a.apart (λ g. e (fn x ∙ g)) (sym (fc x) ∙ f);
          })
          s.others;
  }

  pub to_observers-IsSpared :
      (skip : Option String) (f : Frame) (xs : List Participant) (h : Hub)
      → All (IsApart n k) xs
      → IsSpared h
      → IsSpared (to_observers skip f xs h)
  unfolding to_observers
  to_observers-IsSpared skip f [] h a s = s
  to_observers-IsSpared skip f (x ∷ xs) h a s = to_observers-IsSpared skip f xs _ a.1 (
      if_intro IsSpared (is_observer x && not (skipped skip x) && is_connected h x)
        (λ t. send-IsSpared x f h (observer-IsAway x (ground arith) a.0) s) (λ _. s))

  pub emit_event-IsSpared :
      (event : String) (skip : Option String) (extra : Dict Json) (h : Hub)
      → IsSpared h
      → IsSpared (emit_event event skip extra h)
  unfolding emit_event append_record
  emit_event-IsSpared event skip extra h s =
      to_observers-IsSpared skip (Frame.event event extra) (roll h) h (roll-IsApart h s) s

  pub notify-IsSpared :
      (title text : String) (h : Hub) → IsSpared h → IsSpared (notify title text h)
  unfolding notify
  notify-IsSpared title text h s = if_intro IsSpared h.config.notifications (λ _. s) (λ _. s)

  pub set_busy-IsSpared :
      (x : Participant) (h : Hub) → IsAway n k x → IsSpared h → IsSpared (set_busy x h)
  unfolding set_busy
  set_busy-IsSpared x h a s = on-IsSpared x.name _ h a.name (λ y. refl) (λ y. refl) (λ y. refl) s

  pub deliver-IsSpared :
      (x : Participant) (msgs : List Msg) (h : Hub)
      → IsAway n k x
      → IsSpared h
      → IsSpared (deliver x msgs h)
  unfolding deliver touch_activity append_record
  deliver-IsSpared x msgs h a s =
      let ms = sort_by_id msgs in
      let sent = send x (Frame.deliver h.round (map to_wire ms)) h in
      let noted =
        append_record
          (Record.deliver x.name sent.round (ids ms)
            (ids (keep (λ m. is_overheard m.addressing) ms)) sent.clock.wall)
          sent in
      let still = send-IsSpared x (Frame.deliver h.round (map to_wire ms)) h a s in
      if_intro IsSpared (is_observer x) (λ _. still) (λ _. set_busy-IsSpared x noted a still)

  pub deliver_all-IsSpared :
      (batches : List (Participant × List Msg)) (h : Hub)
      → All (λ b. IsAway n k b.0) batches
      → IsSpared h
      → IsSpared (deliver_all batches h)
  unfolding deliver_all
  deliver_all-IsSpared [] h a s = s
  deliver_all-IsSpared ((x, batch) ∷ rest) h a s =
      deliver_all-IsSpared rest (deliver x batch h) a.1 (deliver-IsSpared x batch h a.0 s)

  pub check_round_limit-IsSpared : (h : Hub) → IsSpared h → IsSpared (check_round_limit h)
  unfolding check_round_limit freeze_at_limit warn_unattended append_record
  check_round_limit-IsSpared h s =
      if_intro IsSpared (leb h.max_rounds h.round && not h.frozen)
        (λ _.
          let told =
            notify-IsSpared "moot" _ _
              (emit_event-IsSpared "round_limit" none _ (record h { frozen = true }) s) in
          if_intro IsSpared (any is_observer (roll _)) (λ _. told) (λ _. told))
        (λ _. s)
