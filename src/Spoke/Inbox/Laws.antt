-- ===== src/Spoke/Inbox/Laws.antt =====
-- What the commands have printed of an inbox.
use Prim.Native.String.{String}
use moot.Common.{
  ℕ, ◌+◌, ◌≡◌, ◌∙◌, refl, Option, none, some, List, [], ◌∷◌, inl, inr, ltb, leb, arith, Bool-cases,
  Option-cases,
}
use moot.Spoke.Inbox.Clean.{IsClean, IsClean-append}
use moot.Spoke.Inbox.{
  Place, Bridge, Look, report, read_cursor, contents, size, grow, consume_unread, wait_loop,
  run_wait, peek_loop, run_peek,
}
use moot.Spoke.Inbox.Delivered.{
  IsText, IsDelivered, grow-IsDelivered, report-IsDelivered, grow-read_cursor, report-read_cursor,
  consume_unread-IsDelivered,
}

module _ (p : Place) (text : IsText p) where
  -- Everything is in order as long as no carriage return has come.
  abbrev Delivers : Bridge → Type 0
  Delivers b = IsClean (contents b) → IsDelivered p b

  grow-Delivers : (bytes : List ℕ) (b : Bridge) → Delivers b → Delivers (grow bytes b)
  unfolding grow contents
  grow-Delivers [] b v = v
  grow-Delivers (byte ∷ bytes) b v = λ c.
      grow-IsDelivered p text (byte ∷ bytes) b (v (IsClean-append (contents b) (byte ∷ bytes) c).0)

  contents-report : (state : String) (b : Bridge) → contents (report p state b) ≡ contents b
  unfolding report contents
  contents-report state b = ground arith

  report-Delivers : (state : String) (b : Bridge) → Delivers b → Delivers (report p state b)
  report-Delivers state b v =
      λ c. report-IsDelivered p text state b (v (rw (contents-report state b) at c))

  contents-consume_unread :
      (start : ℕ) (b : Bridge) → contents (consume_unread p start b).1 ≡ contents b
  unfolding consume_unread contents
  contents-consume_unread start b = ground arith

  -- the reading at the end of both commands
  last_read-Delivers :
      (start : ℕ) (settled : List ℕ) (state : String) (b : Bridge)
      → read_cursor p b ≡ some start
      → Delivers b
      → Delivers (consume_unread p start (grow settled (report p state b))).1
  last_read-Delivers start settled state b at v = λ c.
      let t = grow settled (report p state b) in
      let clean : IsClean (contents t) = rw (contents-consume_unread start t) at c in
      consume_unread-IsDelivered p text start t
        (grow-read_cursor p text settled (report p state b)
          ∙ report-read_cursor p text state b
          ∙ at)
        clean (grow-Delivers settled (report p state b) (report-Delivers state b v) clean)

  wait_loop-Delivers :
      (looks : List Look) (settled : List ℕ) (start deadline : ℕ) (timeout : String) (b : Bridge)
      → read_cursor p b ≡ some start
      → Delivers b
      → Delivers (wait_loop p looks settled start deadline timeout b).1
  unfolding wait_loop read_cursor contents
  wait_loop-Delivers [] settled start deadline timeout b at v = v
  wait_loop-Delivers (look ∷ looks) settled start deadline timeout b at v =
      let t = grow look.grown b in
      let grown : Delivers t = grow-Delivers look.grown b v in
      elim (Bool-cases (ltb start (size t))) [
        | inl e ↦
            rw (wait_loop, e)
              (last_read-Delivers start settled "busy" t (grow-read_cursor p text look.grown b ∙ at)
                grown)
        | inr e ↦ elim (Bool-cases (leb deadline look.clock)) [
          | inl l ↦
              rw (wait_loop, e, l)
                (λ c.
                  let g = grown c in
                  record { rest = g.rest; behind = g.behind; resumes = g.resumes })
          | inr l ↦
              rw (wait_loop, e, l)
                (wait_loop-Delivers looks settled start deadline timeout t
                  (grow-read_cursor p text look.grown b ∙ at) grown)
        ]
      ]

  run_wait-Delivers :
      (now timeout : ℕ) (looks : List Look) (settled : List ℕ) (b : Bridge)
      → Delivers b
      → Delivers (run_wait p now timeout looks settled b).1
  unfolding run_wait
  run_wait-Delivers now timeout looks settled b v = elim (Option-cases (read_cursor p b)) [
    | inl e ↦ rw (run_wait, e) v
    | inr (start, e) ↦
        rw (run_wait, e)
          (wait_loop-Delivers looks settled start (now + timeout) (p.rounded timeout)
            (report p "idle" b) (report-read_cursor p text "idle" b ∙ e)
            (report-Delivers "idle" b v))
  ]

  peek_loop-Delivers :
      (looks : List Look) (start deadline seen : ℕ) (b : Bridge)
      → Delivers b
      → Delivers (peek_loop looks start deadline seen b).1
        × (read_cursor p (peek_loop looks start deadline seen b).1 ≡ read_cursor p b)
  unfolding peek_loop
  peek_loop-Delivers [] start deadline seen b v = (v, refl)
  peek_loop-Delivers (look ∷ looks) start deadline seen b v =
      let t = grow look.grown b in
      let grown : Delivers t = grow-Delivers look.grown b v in
      elim (Bool-cases (leb deadline look.clock)) [
        | inl l ↦ rw (peek_loop, l) (v, refl)
        | inr l ↦ elim (Bool-cases (ltb start (size t))) [
          | inl e ↦ rw (peek_loop, l, e) (grown, grow-read_cursor p text look.grown b)
          | inr e ↦
              let (rest, at) = peek_loop-Delivers looks start deadline (size t) t grown in
              rw (peek_loop, l, e) (rest, at ∙ grow-read_cursor p text look.grown b)
        ]
      ]

  run_peek-Delivers :
      (now settle : ℕ) (looks : List Look) (settled : List ℕ) (b : Bridge)
      → Delivers b
      → Delivers (run_peek p now settle looks settled b).1
  unfolding run_peek contents read_cursor
  run_peek-Delivers now settle looks settled b v = elim (Option-cases (read_cursor p b)) [
    | inl none_read ↦ rw (run_peek, none_read) v
    | inr (start, at_start) ↦
        let (looked, at) =
          peek_loop-Delivers looks start (now + settle) 0 (report p "idle" b)
            (report-Delivers "idle" b v) in
        elim (Option-cases (peek_loop looks start (now + settle) 0 (report p "idle" b)).0) [
          | inl e ↦ rw (run_peek, at_start, e) looked
          | inr (seen, e) ↦ elim (Bool-cases (leb seen start)) [
            | inl l ↦
                let told = report-Delivers "busy" _ looked in
                rw (run_peek, at_start, e, l)
                  (λ c.
                    let u = told c in
                    record { rest = u.rest; behind = u.behind; resumes = u.resumes })
            | inr l ↦
                rw (run_peek, at_start, e, l)
                  (last_read-Delivers start settled "busy" _
                    (at ∙ report-read_cursor p text "idle" b ∙ at_start) looked)
          ]
        ]
  ]

unfoldable pub new_bridge : Option (List ℕ) → Bridge
new_bridge inbox = record {
  inbox = inbox;
  cursor = none;
  reported = [];
  printed = [];
  notes = [];
  complaints = [];
}

-- What any runs of the two commands bring about, while the inbox grows before, in and after them.
pub data Used (p : Place) : Bridge → Type 0 where
  new : (inbox : Option (List ℕ)) → Used p (new_bridge inbox)
  grows : {b : Bridge} → (bytes : List ℕ) → Used p b → Used p (grow bytes b)
  waits :
      {b : Bridge}
      → (now timeout : ℕ) (looks : List Look) (settled : List ℕ) → Used p b
      → Used p (run_wait p now timeout looks settled b).1
  peeks :
      {b : Bridge}
      → (now settle : ℕ) (looks : List Look) (settled : List ℕ) → Used p b
      → Used p (run_peek p now settle looks settled b).1

-- Whatever runs of wait and peek an inbox has seen while it grew: if no carriage return has come into
-- it, the bytes of what they printed, in order, are its begin, and the cursor stands behind them,
-- so nothing is lost or printed twice. The encoding is strict UTF-8.
pub Used-IsDelivered :
    (p : Place) (text : IsText p) {b : Bridge} → Used p b → IsClean (contents b) → IsDelivered p b
unfolding new_bridge read_cursor contents
Used-IsDelivered p text (new inbox) = λ c. record {
  rest = contents (new_bridge inbox);
  behind = rw (text.blank) refl;
  resumes = rw (text.blank) refl;
}
Used-IsDelivered p text (grows {b} bytes u) =
    grow-Delivers p text bytes b (Used-IsDelivered p text u)
Used-IsDelivered p text (waits {b} now timeout looks settled u) =
    run_wait-Delivers p text now timeout looks settled b (Used-IsDelivered p text u)
Used-IsDelivered p text (peeks {b} now settle looks settled u) =
    run_peek-Delivers p text now settle looks settled b (Used-IsDelivered p text u)
