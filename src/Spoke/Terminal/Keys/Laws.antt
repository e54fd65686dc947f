-- ===== src/Spoke/Terminal/Keys/Laws.antt =====
-- The parser of keys: what it keeps, and that the pieces in which bytes arrive do not matter.
use moot.Common.{
  ℕ, suc, ◌-◌, ◌≤◌, ◌<◌, ◌≡◌, ◌≢◌, refl, subst, ap, ◌∙◌, sym, true, false, List, any, eqb, [], ◌∷◌,
  ◌++◌, leb, arith, length, take, drop, length-concat, length-append, take-length_append,
  drop-length_append, if_intro,
}
use mathlib.Core.List.{append_assoc}
use moot.Spoke.Terminal.Editor.{same_text}
use moot.Spoke.Terminal.Keys.{
  paste_limit, paste_end, Codec, Key, paste, Phase, ground_phase, esc_phase, csi_phase, ss3_phase,
  paste_phase, KeyParser, ends_with, end_paste, pasted_key, feed_paste, feed_esc, feed_ss3,
  feed_csi, feed_ground, feed_in, feed_byte, feed, unix_lines,
}

pub open_sequence : List ℕ
open_sequence = 0x1B ∷ 0x5B ∷ 0x32 ∷ 0x30 ∷ 0x30 ∷ 0x7E ∷ []

-- The marker that ends a paste stands nowhere before the end, and the limit is not met before.
pub record IsPaste (text : List ℕ) : Type 0 where
  pub first :
      (n : ℕ)
      → n < length (text ++ paste_end)
      → ends_with (take n (text ++ paste_end)) paste_end ≡ false
  pub short : length (text ++ paste_end) ≤ paste_limit

any-unix_lines : (xs : List ℕ) → any (eqb 0x0D) (unix_lines xs) ≡ false
unfolding unix_lines
any-unix_lines [] = refl
any-unix_lines (x ∷ []) = ground arith
any-unix_lines (x ∷ y ∷ xs) = ground (arith, any-unix_lines (y ∷ xs))

module _ (d : Codec) where
  -- Bytes that arrive in two reads give the same keys as in one, and leave the same parser.
  feed-append :
      (xs ys : List ℕ) (p : KeyParser d)
      → feed d (xs ++ ys) p
        ≡ ((feed d xs p).0 ++ (feed d ys (feed d xs p).1).0, (feed d ys (feed d xs p).1).1)
  unfolding feed
  feed-append [] ys p = refl
  feed-append (b ∷ xs) ys p = rw (feed-append xs ys (feed_byte d b p).1) (
      ap (λ keys. (keys, (feed d ys (feed d xs (feed_byte d b p).1).1).1))
        (sym (
          append_assoc (feed_byte d b p).0 (feed d xs (feed_byte d b p).1).0
            (feed d ys (feed d xs (feed_byte d b p).1).1).0)))

  -- What is collected of a paste is short of the limit, and there is none outside a paste.
  pub record IsShort (p : KeyParser d) : Type 0 where
    pub short : length p.pasted < paste_limit
    pub idle : p.phase ≢ paste_phase → p.pasted ≡ []

  quiet-IsShort : (p : KeyParser d) → p.pasted ≡ [] → IsShort p
  quiet-IsShort p h = record { short = rw h (omega arith); idle = λ _. h }

  feed_paste-IsShort :
      (b : ℕ) (p : KeyParser d) → p.phase ≡ paste_phase → IsShort (feed_paste d b p).1
  unfolding feed_paste pasted_key end_paste
  feed_paste-IsShort b p h =
      if_intro (λ (r : List Key × KeyParser d). IsShort r.1)
        (ends_with (p.pasted ++ b ∷ []) paste_end)
        (λ _. quiet-IsShort (record p { pasted = []; phase = ground_phase }) refl)
        (λ _.
          if_intro (λ (r : List Key × KeyParser d). IsShort r.1)
            (leb paste_limit (length (p.pasted ++ b ∷ [])))
            (λ _. quiet-IsShort (record p { pasted = []; phase = ground_phase }) refl)
            (λ e. record { short = ground (arith, e); idle = λ k. absurd (k h) }))

  -- A parser in the middle of a paste.
  abbrev pasting : KeyParser d → List ℕ → KeyParser d
  pasting p xs = record p { phase = paste_phase; csi = []; pasted = xs }

  pub ended : KeyParser d → List ℕ → List Key × KeyParser d
  ended p raw = (
    paste (unix_lines (d.decode raw)) ∷ [],
    record p { phase = ground_phase; csi = []; pasted = [] },
  )

  feed-open_sequence :
      (p : KeyParser d)
      → feed d open_sequence (record p { phase = ground_phase }) ≡ ([], pasting p [])
  unfolding feed feed_byte feed_in feed_ground feed_esc feed_csi open_sequence same_text
  feed-open_sequence p = refl

  same_text-same : (xs : List ℕ) → same_text xs xs ≡ true
  unfolding same_text
  same_text-same [] = refl
  same_text-same (x ∷ xs) = ground (arith, same_text-same xs)

  ends_with-append : (xs ys : List ℕ) → ends_with (xs ++ ys) ys ≡ true
  unfolding ends_with
  ends_with-append xs ys =
      let before : length (xs ++ ys) - length ys ≡ length xs = omega (arith, length-append xs ys) in
      rw (before, drop-length_append xs ys) (same_text-same ys)

  feed_paste-goes_on :
      (p : KeyParser d) (xs : List ℕ) (b : ℕ)
      → ends_with (xs ++ b ∷ []) paste_end ≡ false
      → suc (length xs) < paste_limit
      → feed_paste d b (pasting p xs) ≡ ([], pasting p (xs ++ b ∷ []))
  unfolding feed_paste
  feed_paste-goes_on p xs b e h =
      let more : leb paste_limit (length (xs ++ b ∷ [])) ≡ false =
        ground (arith, length-concat xs b) in
      rw (e, more) refl

  feed-pasting :
      (p : KeyParser d) (whole xs ys : List ℕ) (b : ℕ)
      → whole ≡ xs ++ b ∷ ys
      → length whole ≤ paste_limit
      → ((n : ℕ) → n < length whole → ends_with (take n whole) paste_end ≡ false)
      → ends_with whole paste_end ≡ true
      → feed d (b ∷ ys) (pasting p xs) ≡ ended p (take (length whole - length paste_end) whole)
  unfolding feed feed_byte feed_in feed_paste pasted_key end_paste ended
  feed-pasting p whole xs [] b w l h e =
      let last : ends_with (xs ++ b ∷ []) paste_end ≡ true = rw (← w) e in rw w (simp last refl)
  feed-pasting p whole xs (c ∷ ys) b w l h e =
      let longer : whole ≡ xs ++ b ∷ [] ++ c ∷ ys = w ∙ sym (append_assoc xs (b ∷ []) (c ∷ ys)) in
      let before : take (suc (length xs)) whole ≡ xs ++ b ∷ [] =
        rw (longer, ← length-concat xs b) (take-length_append (xs ++ b ∷ []) (c ∷ ys)) in
      let room : suc (length xs) < length whole =
        rw longer (omega (arith, length-append (xs ++ b ∷ []) (c ∷ ys), length-concat xs b)) in
      let going : ends_with (xs ++ b ∷ []) paste_end ≡ false =
        rw (← before) (h (suc (length xs)) room) in
      rw (feed_paste-goes_on p xs b going (omega arith))
        (feed-pasting p whole (xs ++ b ∷ []) ys c longer l h e)

  feed-marked :
      (p : KeyParser d) (text : List ℕ)
      → IsPaste text
      → feed d (text ++ paste_end) (pasting p []) ≡ ended p text
  feed-marked p text v =
      let whole = text ++ paste_end in
      let cut : take (length whole - length paste_end) whole ≡ text =
        let n : length whole - length paste_end ≡ length text =
          omega (arith, length-append text paste_end) in
        rw n (take-length_append text paste_end) in
      let last = ends_with-append text paste_end in
      subst (λ t. feed d whole (pasting p []) ≡ ended p t) cut (go text v last)
    where
      go :
          (text : List ℕ)
          → IsPaste text
          → ends_with (text ++ paste_end) paste_end ≡ true
          → feed d (text ++ paste_end) (pasting p [])
            ≡ ended p (take (length (text ++ paste_end) - length paste_end) (text ++ paste_end))
      go [] v last = feed-pasting p paste_end [] (drop 1 paste_end) 0x1B refl v.short v.first last
      go (b ∷ text) v last =
          feed-pasting p (b ∷ text ++ paste_end) [] (text ++ paste_end) b refl v.short v.first last

  -- A bracketed paste is one key, with what stands between the markers and its line ends made
  -- line feeds, so that no carriage return is left, if the closing marker stands nowhere else and
  -- the limit is kept.
  pub feed-bracketed :
      (p : KeyParser d) (text : List ℕ)
      → IsPaste text
      → (feed d (open_sequence ++ (text ++ paste_end)) (record p { phase = ground_phase })
          ≡ ended p text)
        × (any (eqb 0x0D) (unix_lines (d.decode text)) ≡ false)
  feed-bracketed p text v = (
    rw
        (
          feed-append open_sequence (text ++ paste_end) (record p { phase = ground_phase }),
          feed-open_sequence p,
        )
        (feed-marked p text v),
    any-unix_lines (d.decode text),
  )

  pasted-feed_esc : (b : ℕ) (p : KeyParser d) → p.pasted ≡ [] → (feed_esc d b p).1.pasted ≡ []
  unfolding feed_esc
  pasted-feed_esc b p h = ground arith

  pasted-feed_csi : (b : ℕ) (p : KeyParser d) → p.pasted ≡ [] → (feed_csi d b p).1.pasted ≡ []
  unfolding feed_csi
  pasted-feed_csi b p h = ground arith

  pasted-feed_ground : (b : ℕ) (p : KeyParser d) → p.pasted ≡ [] → (feed_ground d b p).1.pasted ≡ []
  unfolding feed_ground
  pasted-feed_ground b p h = ground arith

  feed_in-IsShort :
      (ph : Phase) (b : ℕ) (p : KeyParser d)
      → p.phase ≡ ph
      → IsShort p
      → IsShort (feed_in d ph b p).1
  unfolding feed_in feed_ss3
  feed_in-IsShort paste_phase b p e v = feed_paste-IsShort b p e
  feed_in-IsShort esc_phase b p e v =
      quiet-IsShort (feed_esc d b p).1 (pasted-feed_esc b p (v.idle (λ k. cc)))
  feed_in-IsShort ss3_phase b p e v = quiet-IsShort (feed_ss3 d b p).1 (v.idle (λ k. cc))
  feed_in-IsShort csi_phase b p e v =
      quiet-IsShort (feed_csi d b p).1 (pasted-feed_csi b p (v.idle (λ k. cc)))
  feed_in-IsShort ground_phase b p e v =
      quiet-IsShort (feed_ground d b p).1 (pasted-feed_ground b p (v.idle (λ k. cc)))

  -- Whatever bytes arrive, what is collected of a paste stays short of the limit.
  pub feed-IsShort : (bytes : List ℕ) (p : KeyParser d) → IsShort p → IsShort (feed d bytes p).1
  unfolding feed feed_byte
  feed-IsShort [] p v = v
  feed-IsShort (b ∷ bytes) p v =
      feed-IsShort bytes (feed_byte d b p).1 (feed_in-IsShort p.phase b p refl v)
