-- ===== src/Core/Hub/Hello/Backlog.antt =====
-- core/hub.py, `_late_join` and the messages read from records: what a late participant gets of the recent messages.
use moot.Core.Hub.Hello.Request.{str_value}
use moot.Common.{
  ℕ, ◌*◌, String, Bool, true, false, not, ◌||◌, Option, none, some, List, [], ◌∷◌, map, ◌==◌, keep,
  is_empty, if◌then◌else◌,
}
use moot.Common.Dict
use moot.Common.Dict.{Dict}
use moot.Common.Int.{pos}
use moot.Core.Types.{Msg, tag, overheard}
use moot.Core.Buffer
use moot.Core.Proto.Json.{Json, truthy}
use moot.Core.Hub.State.{Host, Hub, Participant, is_observer, on}
use moot.Core.Hub.Delivery.{deliver}
use moot.Core.Hub.Route.{addressing, last_n}

-- An id that is no natural number reads 0: the hub writes no such id.
unfoldable pub id_value : Option Json → ℕ
id_value (some (Json.int (pos n))) = n
id_value (some (Json.bool true)) = 1
id_value _ = 0

unfoldable pub ts_value : Option Json → ℕ
ts_value (some (Json.int (pos n))) = n * 1000
ts_value (some (Json.float t)) = t
ts_value _ = 0

unfoldable pub text_or : Host → String → String → Dict Json → String
unfolding str_value
text_or host key other rec = elim (Dict.get key rec) [ none ↦ other | some v ↦ str_value host v ]

unfoldable pub msg_from_record : Host → Dict Json → Msg
unfolding id_value ts_value text_or
msg_from_record host rec = record {
  id = id_value (Dict.get "id" rec);
  sender = text_or host "from" "?" rec;
  to = text_or host "to" "*" rec;
  kind = text_or host "kind" "note" rec;
  text = text_or host "text" "" rec;
  ts = ts_value (Dict.get "ts" rec);
  addressing = none;
  seq = none;
  private = truthy (Dict.get "private" rec);
}

-- `rec.get(key) == name`
unfoldable pub is_text : String → String → Dict Json → Bool
is_text key name rec = elim (Dict.get key rec) [ some (Json.str s) ↦ s == name | _ ↦ false ]

-- Private messages of others are left out before the window is cut.
unfoldable pub backlog : Participant → Hub → List Msg
unfolding msg_from_record is_text
backlog p h = map (msg_from_record h.host) (
    keep (λ rec. not (is_text "from" p.name rec))
      (last_n h.config.backlog_on_join (
        keep
          (λ rec. is_observer p || not (truthy (Dict.get "private" rec)) || is_text "to" p.name rec)
          h.recent)))

unfoldable pub append_all : Buffer.ContextBuffer → List Msg → Buffer.ContextBuffer
append_all b [] = b
append_all b (m ∷ ms) = append_all (Buffer.append b (tag m overheard)) ms

-- an observer gets the backlog delivered, an agent gets it as context
unfoldable pub late_join : Participant → Hub → Hub
unfolding append_all
late_join p h =
    if is_observer p
    then (if is_empty (backlog p h)
        then h
        else deliver p (map (λ m. tag m (addressing p m.to)) (backlog p h)) h)
    else on p.name (λ q. record q { context = append_all q.context (backlog p h) }) h
