-- ===== src/Spoke/Terminal/Keys.antt =====
-- spoke/tui.py: the parser from bytes to keys. A byte is its number.
pub mod Laws
use moot.Common.{
  ℕ, zero, suc, ◌+◌, ◌-◌, ◌*◌, String, Bool, true, false, ◌&&◌, ◌||◌, Option, none, some, List, [],
  ◌∷◌, ◌++◌, ltb, leb, eqb, ◌==◌, length, take, drop, take_last, is_empty, if◌then◌else◌,
}
use moot.Spoke.Terminal.Editor.{same_text}

abbrev pub paste_limit : ℕ
paste_limit = 256 * 1024

-- What the code uses of codecs: the incremental decoder with `errors="replace"`, by its state,
-- and the decoding of a whole text.
pub record Codec : Type 1 where
  pub State : Type 0
  pub initial : State
  pub decode_byte : State → ℕ → List ℕ × State
  pub decode : List ℕ → List ℕ

pub data Key : Type 0 where
  char : List ℕ → Key
  paste : List ℕ → Key
  enter : Key
  alt_enter : Key
  named : String → Key

pub data Phase : Type 0 where
  ground_phase esc_phase csi_phase ss3_phase paste_phase : Phase

unfoldable pub ctrl_key : ℕ → Option String
ctrl_key b =
    if eqb b 0x01
    then some "ctrl_a"
    else if eqb b 0x03
    then some "ctrl_c"
    else if eqb b 0x04
    then some "ctrl_d"
    else if eqb b 0x05
    then some "ctrl_e"
    else if eqb b 0x0B
    then some "ctrl_k"
    else if eqb b 0x0C
    then some "ctrl_l"
    else if eqb b 0x15
    then some "ctrl_u"
    else if eqb b 0x17
    then some "ctrl_w"
    else none

-- the final byte of a sequence, as a key
unfoldable pub csi_final : ℕ → Option String
csi_final b =
    if eqb b 0x41
    then some "up"
    else if eqb b 0x42
    then some "down"
    else if eqb b 0x43
    then some "right"
    else if eqb b 0x44
    then some "left"
    else if eqb b 0x48
    then some "home"
    else if eqb b 0x46
    then some "end"
    else none

-- the parameter before a tilde: "1", "3", "4", "7", "8"
unfoldable pub csi_tilde : List ℕ → Option String
csi_tilde csi =
    if same_text csi (0x31 ∷ [])
    then some "home"
    else if same_text csi (0x33 ∷ [])
    then some "delete"
    else if same_text csi (0x34 ∷ [])
    then some "end"
    else if same_text csi (0x37 ∷ [])
    then some "home"
    else if same_text csi (0x38 ∷ [])
    then some "end"
    else none

abbrev pub paste_begin : List ℕ
paste_begin = 0x32 ∷ 0x30 ∷ 0x30 ∷ []

-- ESC [ 2 0 1 ~
abbrev pub paste_end : List ℕ
paste_end = 0x1B ∷ 0x5B ∷ 0x32 ∷ 0x30 ∷ 0x31 ∷ 0x7E ∷ []

unfoldable pub ends_with : List ℕ → List ℕ → Bool
ends_with bytes suffix = same_text (take_last (length suffix) bytes) suffix

unfoldable pub key_list : Option String → List Key
key_list none = []
key_list (some name) = named name ∷ []

-- `replace("\r\n", "\n").replace("\r", "\n")`
unfoldable pub unix_lines : List ℕ → List ℕ
unix_lines [] = []
unix_lines (a ∷ []) = (if eqb a 0x0D then 0x0A else a) ∷ []
unix_lines (a ∷ b ∷ rest) =
    let tail = unix_lines (b ∷ rest) in
    if eqb a 0x0D then if eqb b 0x0A then tail else 0x0A ∷ tail else a ∷ tail

module _ (d : Codec) where
  pub record KeyParser : Type 0 where
    pub phase : Phase
    pub csi : List ℕ
    pub pasted : List ℕ
    pub decoder : d.State

  unfoldable pub new_parser : KeyParser
  new_parser = record { phase = ground_phase; csi = []; pasted = []; decoder = d.initial }

  unfoldable pub pending_escape : KeyParser → Bool
  pending_escape p = elim p.phase [
    | esc_phase ↦ true
    | csi_phase ↦ true
    | ss3_phase ↦ true
    | _ ↦ false
  ]

  unfoldable pub pending_paste : KeyParser → Bool
  pending_paste p = elim p.phase [ paste_phase ↦ true | _ ↦ false ]

  unfoldable pub end_paste : List ℕ → KeyParser → Key × KeyParser
  end_paste raw p =
      (paste (unix_lines (d.decode raw)), record p { pasted = []; phase = ground_phase })

  -- a paste that ends, as the only key
  unfoldable pub pasted_key : List ℕ → KeyParser → List Key × KeyParser
  unfolding end_paste
  pasted_key raw p = let (key, q) = end_paste raw p in (key ∷ [], q)

  unfoldable pub feed_paste : ℕ → KeyParser → List Key × KeyParser
  feed_paste b p =
      let pasted = p.pasted ++ b ∷ [] in
      if ends_with pasted paste_end
      then pasted_key (take (length pasted - length paste_end) pasted) p
      else if leb paste_limit (length pasted)
      then pasted_key pasted p
      else ([], record p { pasted = pasted })

  unfoldable pub feed_esc : ℕ → KeyParser → List Key × KeyParser
  feed_esc b p =
      let q = record p { phase = ground_phase } in
      if eqb b 0x5B
      then ([], record p { phase = csi_phase; csi = [] })
      else if eqb b 0x4F
      then ([], record p { phase = ss3_phase })
      else if eqb b 0x0A || eqb b 0x0D
      then (alt_enter ∷ [], q)
      else if eqb b 0x62
      then (named "alt_b" ∷ [], q)
      else if eqb b 0x66
      then (named "alt_f" ∷ [], q)
      else ([], q)

  unfoldable pub feed_ss3 : ℕ → KeyParser → List Key × KeyParser
  feed_ss3 b p = (key_list (csi_final b), record p { phase = ground_phase })

  unfoldable pub feed_csi : ℕ → KeyParser → List Key × KeyParser
  feed_csi b p =
      let q = record p { phase = ground_phase; csi = [] } in
      if leb 0x40 b && leb b 0x7E
      then if eqb b 0x7E
        then if same_text p.csi paste_begin
          then ([], record q { phase = paste_phase; pasted = [] })
          else (key_list (csi_tilde p.csi), q)
        else if eqb b 0x5A
        then ([], q)
        else (key_list (csi_final b), q)
      else ([], record p { csi = p.csi ++ b ∷ [] })

  unfoldable pub feed_ground : ℕ → KeyParser → List Key × KeyParser
  feed_ground b p =
      if eqb b 0x1B
      then ([], record p { phase = esc_phase })
      else if eqb b 0x0A || eqb b 0x0D
      then (enter ∷ [], p)
      else if eqb b 0x7F || eqb b 0x08
      then (named "backspace" ∷ [], p)
      else if eqb b 0x09
      then (char (0x09 ∷ []) ∷ [], p)
      else elim (ctrl_key b) [
        | some name ↦ (named name ∷ [], p)
        | none ↦
            if ltb b 0x20
            then ([], p)
            else if ltb b 0x80
            then (char (b ∷ []) ∷ [], p)
            else let (out, decoder) = d.decode_byte p.decoder b in
              (if is_empty out then [] else char out ∷ [], record p { decoder = decoder })
      ]

  -- one turn of the loop of `feed`, by the state
  unfoldable pub feed_in : Phase → ℕ → KeyParser → List Key × KeyParser
  feed_in paste_phase b p = feed_paste b p
  feed_in esc_phase b p = feed_esc b p
  feed_in ss3_phase b p = feed_ss3 b p
  feed_in csi_phase b p = feed_csi b p
  feed_in ground_phase b p = feed_ground b p

  unfoldable pub feed_byte : ℕ → KeyParser → List Key × KeyParser
  feed_byte b p = feed_in p.phase b p

  unfoldable pub feed : List ℕ → KeyParser → List Key × KeyParser
  feed [] p = ([], p)
  feed (b ∷ bytes) p =
      let (keys, q) = feed_byte b p in let (more, r) = feed bytes q in (keys ++ more, r)

  unfoldable pub flush_timeout : KeyParser → List Key × KeyParser
  unfolding pending_escape pending_paste
  flush_timeout p =
      if pending_escape p
      then ([], record p { phase = ground_phase; csi = [] })
      else if pending_paste p
      then pasted_key p.pasted p
      else ([], p)
