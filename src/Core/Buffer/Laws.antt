-- ===== src/Core/Buffer/Laws.antt =====
-- The context buffer against the history of what was appended to it since it was last emptied.
use moot.Common.{
  ℕ, zero, suc, ◌+◌, ◌-◌, ◌≤◌, ◌<◌, ◌≡◌, refl, ap, ◌∙◌, sym, true, false, Option, none, List, [],
  ◌∷◌, ◌++◌, arith, length, drop, All, length-append, length-drop, drop-append, inl, inr,
  Bool-cases, leb→le, take_last, ◌↔◌, leb, eqb, if◌then◌else◌,
}
use moot.Core.Types.{Msg}
use moot.Core.Buffer.{ContextBuffer, make_room, append, placeholder, within, drain_items, drain}

-- The buffer holds the newest messages of the history, at most `cap`, and has counted the others.
pub record Holds (b : ContextBuffer) (history : List Msg) : Type 0 where
  pub positive : 0 < b.cap
  pub bounded : length b.items ≤ b.cap
  pub newest : b.items ≡ drop b.evicted history
  pub counted : b.evicted + length b.items ≡ length history
  pub needed : 0 < b.evicted → length b.items ≡ b.cap

make_room_lem :
    (cap : ℕ) (xs : List Msg) (e : ℕ)
    → length xs ≤ cap
    → 0 < cap
    → make_room cap xs e ≡ (if leb cap (length xs) then (drop 1 xs, e + 1) else (xs, e))
unfolding make_room
make_room_lem cap [] e h k = ground arith
make_room_lem cap (x ∷ []) e h k = ground arith
make_room_lem cap (x ∷ y ∷ xs) e h k = ground arith

drop-drop_one : (n : ℕ) (xs : List Msg) → drop 1 (drop n xs) ≡ drop (n + 1) xs
drop-drop_one zero xs = refl
drop-drop_one (suc n) [] = ground arith
drop-drop_one (suc n) (x ∷ xs) = ground (arith, drop-drop_one n xs)

-- One more message in the history is one more `append`: the oldest one leaves a full buffer, and
-- is counted.
pub append-Holds :
    (b : ContextBuffer) (history : List Msg) (msg : Msg)
    → Holds b history
    → Holds (append b msg) (history ++ msg ∷ [])
unfolding append
append-Holds b history msg h =
    rw (make_room_lem b.cap b.items b.evicted h.bounded h.positive)
      (elim (Bool-cases (leb b.cap (length b.items))) [
        | inl full ↦ rw full (record {
          positive = h.positive;
          bounded = omega (
            arith,
            length-append (drop 1 b.items) (msg ∷ []),
            length-drop 1 b.items,
            h.positive,
            h.bounded,
          );
          newest =
              rw (h.newest, drop-drop_one b.evicted history)
                (sym (
                  drop-append (b.evicted + 1) history (msg ∷ [])
                    (ground (arith, h.counted, h.positive))));
          counted = ground (
            arith,
            length-append (drop 1 b.items) (msg ∷ []),
            length-append history (msg ∷ []),
            length-drop 1 b.items,
            h.counted,
            h.positive,
          );
          needed = λ _. omega (
            arith,
            length-append (drop 1 b.items) (msg ∷ []),
            length-drop 1 b.items,
            h.positive,
            h.bounded,
            leb→le _ _ full,
          );
        })
        | inr room ↦ rw room (record {
          positive = h.positive;
          bounded = ground (arith, length-append b.items (msg ∷ []));
          newest =
              rw h.newest
                (sym (drop-append b.evicted history (msg ∷ []) (omega (arith, h.counted))));
          counted = omega (
            arith,
            length-append b.items (msg ∷ []),
            length-append history (msg ∷ []),
            h.counted,
          );
          needed = λ e. absurd (ground (arith, h.needed e));
        })
      ])

-- What `drain` takes and what it leaves are the buffer, in order.
drain_items_split :
    (upto : Option ℕ) (xs : List Msg) → (drain_items upto xs).0 ++ (drain_items upto xs).1 ≡ xs
unfolding drain_items
drain_items_split upto [] = refl
drain_items_split upto (x ∷ xs) = ground (arith, drain_items_split upto xs)

drain_items-within :
    (upto : Option ℕ) (xs : List Msg) → All (λ m. within upto m ≡ true) (drain_items upto xs).0
unfolding drain_items
drain_items-within upto [] = tt
drain_items-within upto (x ∷ xs) = elim (Bool-cases (within upto x)) [
  | inl e ↦ rw e (e, drain_items-within upto xs)
  | inr e ↦ rw e tt
]

-- The first message that stays is past the limit.
abbrev pub StartsPast : Option ℕ → List Msg → Type 0
StartsPast upto [] = Unit
StartsPast upto (x ∷ xs) = within upto x ≡ false

drain_items_past : (upto : Option ℕ) (xs : List Msg) → StartsPast upto (drain_items upto xs).1
unfolding drain_items
drain_items_past upto [] = tt
drain_items_past upto (x ∷ xs) = elim (Bool-cases (within upto x)) [
  | inl e ↦ rw e (drain_items_past upto xs)
  | inr e ↦ rw e e
]

drain_items_all : (xs : List Msg) → drain_items none xs ≡ (xs, [])
unfolding drain_items within
drain_items_all [] = refl
drain_items_all (x ∷ xs) = ground (arith, drain_items_all xs)

-- the line for what was evicted, if anything was
abbrev pub notice : ContextBuffer → List Msg
notice b = if eqb b.evicted 0 then [] else placeholder b ∷ []

-- Draining up to an id splits the buffer: first the notice, then the longest run of messages up to
-- that id; the rest stays, and starts past the id. The count of evictions starts again.
pub drain_lem :
    (b : ContextBuffer) (history : List Msg) (upto : Option ℕ)
    → Holds b history
    → (taken : List Msg) × ((drain b upto).0 ≡ notice b ++ taken)
      × (taken ++ (drain b upto).1.items ≡ drop b.evicted history)
      × All (λ m. within upto m ≡ true) taken
      × StartsPast upto (drain b upto).1.items
      × Holds (drain b upto).1 (drain b upto).1.items
unfolding drain
drain_lem b history upto h = (
  (drain_items upto b.items).0,
  refl,
  drain_items_split upto b.items ∙ h.newest,
  drain_items-within upto b.items,
  drain_items_past upto b.items,
  record {
    positive = h.positive;
    bounded = omega (
      arith,
      h.bounded,
      ap length (drain_items_split upto b.items),
      length-append (drain_items upto b.items).0 (drain_items upto b.items).1,
    );
    newest = refl;
    counted = omega arith;
    needed = λ e. absurd (omega arith);
  },
)

-- A drain with no limit returns the notice and the newest `cap` messages of the history, and
-- leaves nothing; the notice is there exactly if the history is longer than `cap`.
pub drain_all :
    (b : ContextBuffer) (history : List Msg)
    → Holds b history
    → ((drain b none).0 ≡ notice b ++ take_last b.cap history)
      × ((drain b none).1.items ≡ [])
      × ((notice b ≡ []) ↔ (length history ≤ b.cap))
unfolding drain
drain_all b history h =
    let skipped : b.evicted ≡ length history - b.cap =
      ground (arith, h.counted, h.bounded, h.needed) in
    (
      rw drain_items_all (ap (λ xs. notice b ++ xs) (h.newest ∙ ap (λ n. drop n history) skipped)),
      rw drain_items_all refl,
      ground (arith, skipped),
    )
